-- ===== src/Game/Players/Command.antt =====
-- What the server's messages ask of a client of MMO_Game/src/MMO_Client.cpp: a player comes, changes or
-- goes.
use networking_projects.Prelude.{
  ◌>>=◌, ℕ, ◌≡◌, refl, ap, ◌∙◌, Bool, false, List, [], ◌∷◌, ◌++◌, map, some, All, ◌==◌,
  if◌then◌else◌,
}
use networking_projects.Message.{Message, empty, push}
use networking_projects.Message.Laws.{pull-push}
use networking_projects.Game.Common.{
  GameMsg, PlayerDescription, game_remove_player, game_update_player,
}
use networking_projects.Game.GameServer.{
  GamePlatform, insert_or_assign, erase, add_player, remove_player,
}
use networking_projects.Game.GameClient.{
  GameClient, on_remove_player, on_update_player, player_update, update_client_state, update_all,
}
use networking_projects.Game.GameClient.Joining.{added}
use networking_projects.Game.Players.{Players, players, put, leave}

pub data Command (F : Type 0) : Type 0 where
  come : PlayerDescription F → Command F
  change : PlayerDescription F → Command F
  go : ℕ → Command F

module _ {F : Type 0} where
  -- What a command does to the players, in whatever order they are kept.
  abbrev pub apply : Command F → Players (PlayerDescription F) → Players (PlayerDescription F)
  apply (come d) = put d.unique_id d
  apply (change d) = put d.unique_id d
  apply (go id) = leave id

  abbrev pub apply_all :
      List (Command F) → Players (PlayerDescription F) → Players (PlayerDescription F)
  apply_all [] m = m
  apply_all (c ∷ cs) m = apply_all cs (apply c m)

  -- The same on a list of players.
  abbrev pub perform : Command F → List (ℕ × PlayerDescription F) → List (ℕ × PlayerDescription F)
  perform (come d) l = insert_or_assign d.unique_id d l
  perform (change d) l = insert_or_assign d.unique_id d l
  perform (go id) l = erase id l

  abbrev pub perform_all :
      List (Command F) → List (ℕ × PlayerDescription F) → List (ℕ × PlayerDescription F)
  perform_all [] l = l
  perform_all (c ∷ cs) l = perform_all cs (perform c l)

  perform-apply :
      (c : Command F) (l : List (ℕ × PlayerDescription F))
      → players (perform c l) ≡ apply c (players l)
  unfolding put leave
  perform-apply (come d) l = refl
  perform-apply (change d) l = refl
  perform-apply (go id) l = refl

  pub perform_all-apply_all :
      (cs : List (Command F)) (l : List (ℕ × PlayerDescription F))
      → players (perform_all cs l) ≡ apply_all cs (players l)
  perform_all-apply_all [] l = refl
  perform_all-apply_all (c ∷ cs) l =
      perform_all-apply_all cs (perform c l) ∙ ap (apply_all cs) (perform-apply c l)

  -- Whether the player with this identifier still waits for itself.
  abbrev waits_after : ℕ → Command F → Bool → Bool
  waits_after id (come d) w = if d.unique_id == id then false else w
  waits_after id (change d) w = w
  waits_after id (go k) w = w

  abbrev pub waits : ℕ → List (Command F) → Bool → Bool
  waits id [] w = w
  waits id (c ∷ cs) w = waits id cs (waits_after id c w)

  -- The client after a command, and after several.
  abbrev after : GameClient F → Command F → GameClient F
  after g c = record g {
    map_objects = perform c g.map_objects;
    waiting_for_connection = waits_after g.player_id c g.waiting_for_connection;
  }

  abbrev pub after_all : GameClient F → List (Command F) → GameClient F
  after_all g cs = record g {
    map_objects = perform_all cs g.map_objects;
    waiting_for_connection = waits g.player_id cs g.waiting_for_connection;
  }

pub perform_all-append :
    {F : Type 0} (cs ds : List (Command F)) (l : List (ℕ × PlayerDescription F))
    → perform_all (cs ++ ds) l ≡ perform_all ds (perform_all cs l)
perform_all-append [] ds l = refl
perform_all-append (c ∷ cs) ds l = perform_all-append cs ds _

pub map-append :
    {A B : Type 0} (f : A → B) (xs ys : List A) → map f (xs ++ ys) ≡ map f xs ++ map f ys
map-append f [] ys = refl
map-append f (x ∷ xs) ys = ap (◌∷◌ (f x)) (map-append f xs ys)

module _ {F : Type 0} (platform : GamePlatform F) (three zero_yaw : F) where
  open platform use {id, desc}

  -- The server's message for a command, and the condition that its numbers fit their types.
  abbrev pub message_of : Command F → Message GameMsg
  message_of (come d) = add_player platform d
  message_of (change d) = player_update platform three zero_yaw d
  message_of (go k) = remove_player platform k

  abbrev pub FitsIn : Command F → Type 0
  FitsIn (come d) = desc.IsValue d
  FitsIn (change d) = desc.IsValue d
  FitsIn (go k) = id.IsValue k

  update_client_state-after :
      (g : GameClient F) (c : Command F)
      → FitsIn c
      → update_client_state platform three zero_yaw g (message_of c) ≡ some (after g c)
  unfolding update_client_state on_remove_player on_update_player player_update remove_player push
      empty
  update_client_state-after g (come d) v = added platform three zero_yaw g d v
  update_client_state-after g (change d) v =
      ap
        (λ o. o >>= λ (rest, e).
          some (record g { map_objects = insert_or_assign e.unique_id e g.map_objects }))
        (pull-push desc (empty game_update_player) d refl v)
  update_client_state-after g (go k) v =
      ap (λ o. o >>= λ (rest, i). some (record g { map_objects = erase i g.map_objects }))
        (pull-push id (empty game_remove_player) k refl v)

  pub update_all-after_all :
      (cs : List (Command F)) (g : GameClient F)
      → All FitsIn cs
      → update_all platform three zero_yaw g (map message_of cs) ≡ some (after_all g cs)
  unfolding update_all
  update_all-after_all [] g v = refl
  update_all-after_all (c ∷ cs) g v =
      ap (λ o. o >>= λ t. update_all platform three zero_yaw t (map message_of cs))
        (update_client_state-after g c v.0)
      ∙ update_all-after_all cs (after g c) v.1

  -- The client's loop over the messages of any commands (players that come, change and go), their
  -- numbers in the ranges of their types, is defined, and what it does to the client's map, taken
  -- without its order, is what the commands do to the players, one by one. The client keeps its
  -- identifier.
  pub update_all-refines :
      (cs : List (Command F)) (g : GameClient F)
      → All FitsIn cs
      → (g' : GameClient F) × (update_all platform three zero_yaw g (map message_of cs) ≡ some g')
        × (players g'.map_objects ≡ apply_all cs (players g.map_objects))
        × (g'.player_id ≡ g.player_id)
  update_all-refines cs g v =
      (after_all g cs, update_all-after_all cs g v, perform_all-apply_all cs g.map_objects, refl)
