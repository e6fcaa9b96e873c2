-- ===== src/Game/GameClient/Joining.antt =====
-- How the server's messages let a player into the game.
use networking_projects.Prelude.{
  ◌>>=◌, ℕ, ◌≡◌, refl, ap, ◌∙◌, Bool, true, false, List, [], ◌∷◌, map, some, All, ==_refl, ◌==◌,
  if◌then◌else◌,
}
use networking_projects.Message.{empty, push}
use networking_projects.Message.Laws.{pull-push}
use networking_projects.Game.Common.{PlayerDescription, client_assign_id, game_add_player}
use networking_projects.Game.GameServer.{GamePlatform, insert_or_assign, assign_id, add_player}
use networking_projects.Game.GameClient.{
  GameClient, on_assign_id, on_add_player, update_client_state, update_all,
}

module _ {F : Type 0} where
  -- Every player in turn, under its identifier.
  abbrev pub enter_all :
      List (PlayerDescription F) → List (ℕ × PlayerDescription F) → List (ℕ × PlayerDescription F)
  enter_all [] objects = objects
  enter_all (d ∷ ds) objects = enter_all ds (insert_or_assign d.unique_id d objects)

module _ {F : Type 0} (platform : GamePlatform F) (three zero_yaw : F) where
  open platform use {id, desc}

  -- The game when a player of this description enters it.
  abbrev entered : GameClient F → PlayerDescription F → GameClient F
  entered g d = record g {
    map_objects = insert_or_assign d.unique_id d g.map_objects;
    waiting_for_connection = if d.unique_id == g.player_id then false else g.waiting_for_connection;
  }

  assigned :
      (g : GameClient F) (n : ℕ)
      → id.IsValue n
      → update_client_state platform three zero_yaw g (assign_id platform n)
        ≡ some (record g { player_id = n })
  unfolding update_client_state on_assign_id assign_id push empty
  assigned g n v =
      ap (λ o. o >>= λ (rest, k). some (record g { player_id = k }))
        (pull-push id (empty client_assign_id) n refl v)

  pub added :
      (g : GameClient F) (d : PlayerDescription F)
      → desc.IsValue d
      → update_client_state platform three zero_yaw g (add_player platform d) ≡ some (entered g d)
  unfolding update_client_state on_add_player add_player push empty
  added g d v =
      ap (λ o. o >>= λ (rest, e). some (entered g e))
        (pull-push desc (empty game_add_player) d refl v)

  -- A player in the game stays in it while others enter.
  others_added :
      (ds : List (PlayerDescription F)) (g : GameClient F)
      → All desc.IsValue ds
      → g.waiting_for_connection ≡ false
      → update_all platform three zero_yaw g (map (add_player platform) ds)
        ≡ some
            (record g { map_objects = enter_all ds g.map_objects; waiting_for_connection = false })
  unfolding update_all
  others_added [] g v playing = ap (λ w. some (record g { waiting_for_connection = w })) playing
  others_added (d ∷ ds) g v playing =
      ap (λ o. o >>= λ t. update_all platform three zero_yaw t (map (add_player platform) ds))
        (added g d v.0)
      ∙ others_added ds (entered g d) v.1 (still (d.unique_id == g.player_id) playing)
    where
      still : (b : Bool) {w : Bool} → w ≡ false → (if b then false else w) ≡ false
      still true e = refl
      still false e = e

  -- When a client of any state gets what the server posts to it on a registration (its identifier,
  -- its own description under that identifier, then the players of the roster), and the numbers in
  -- them lie in the ranges of their types, it knows its identifier, it no longer waits, and it holds
  -- its own player and each of the others under their identifiers.
  pub update_all-joins :
      (g : GameClient F) (d : PlayerDescription F) (ds : List (PlayerDescription F))
      → id.IsValue d.unique_id
      → desc.IsValue d
      → All desc.IsValue ds
      → update_all platform three zero_yaw g
          (assign_id platform d.unique_id ∷ add_player platform d ∷ map (add_player platform) ds)
        ≡ some (record g {
          player_id = d.unique_id;
          map_objects = enter_all ds (insert_or_assign d.unique_id d g.map_objects);
          waiting_for_connection = false;
        })
  unfolding update_all
  update_all-joins g d ds numbered valid others =
      let rest = map (add_player platform) ds in
      let g' = record g { player_id = d.unique_id } in
      ap (λ o. o >>= λ t. update_all platform three zero_yaw t (add_player platform d ∷ rest))
        (assigned g d.unique_id numbered)
      ∙ ap (λ o. o >>= λ t. update_all platform three zero_yaw t rest) (added g' d valid)
      ∙ others_added ds (entered g' d) others
          (ap (λ b. if b then false else g.waiting_for_connection) (==_refl d.unique_id))
