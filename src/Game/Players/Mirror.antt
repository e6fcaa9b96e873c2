-- ===== src/Game/Players/Mirror.antt =====
-- The server of MMO_Game/src/MMO_Server.cpp keeps the players; each client of MMO_Client.cpp follows it
-- through the messages that it is posted.
pub mod Posts
pub mod Registration
pub mod Passing
use networking_projects.Prelude.{
  ◌>>=◌, ℕ, ◌≡◌, refl, sym, ap, ◌∙◌, List, [], ◌∷◌, ◌++◌, map, some, none, All, ◌==◌, Bool-cases,
  Option-cases, ==_iff, inl, inr, Option,
}
use networking_projects.Message.{Message}
use networking_projects.Connection.{get_id}
use networking_projects.Connection.Types.{Connection}
use networking_projects.Game.Common.{GameMsg, PlayerDescription}
use networking_projects.Game.GameServer.{
  GameState, GamePlatform, GameServer, on_client_disconnect, find, insert_or_assign, erase,
  remove_player,
}
use networking_projects.Game.GameServer.Maps.{find-insert_or_assign_if}
use networking_projects.Game.GameServer.Departures.{AreAlive, announced}
use networking_projects.Game.GameClient.{GameClient, update_client_state, update_all}
use networking_projects.Game.GameClient.Joining.{enter_all}
use networking_projects.Game.Players.{Players, players, players-eq, leave}
use networking_projects.Game.Players.Command.{
  Command, go, apply_all, perform_all, message_of, FitsIn,
}
use networking_projects.Game.Players.Roster.{IsRoster, players_of, or_else, find-enter_all}
use networking_projects.Game.Players.Inbox.{
  posted_to, posted_to-append, times, posted_to-announcements,
}

module _ {F : Type 0} where
  -- The departures of these players.
  abbrev pub gone : List ℕ → List (Command F)
  gone = map go

  gone-append : (ids : List ℕ) (id : ℕ) → gone (ids ++ id ∷ []) ≡ gone ids ++ go id ∷ []
  gone-append [] id = refl
  gone-append (i ∷ ids) id = ap (◌∷◌ (go i)) (gone-append ids id)

  pub apply_all-append :
      (cs ds : List (Command F)) (m : Players (PlayerDescription F))
      → apply_all (cs ++ ds) m ≡ apply_all ds (apply_all cs m)
  apply_all-append [] ds m = refl
  apply_all-append (c ∷ cs) ds m = apply_all-append cs ds _

  pub perform_all-nobody : (ids : List ℕ) → perform_all (gone ids) [] ≡ []
  unfolding erase
  perform_all-nobody [] = refl
  perform_all-nobody (id ∷ ids) = perform_all-nobody ids

  or_else-none : (o : Option (PlayerDescription F)) → or_else o none ≡ o
  or_else-none none = refl
  or_else-none (some d) = refl

  -- A newcomer that is told of itself and of everybody in the roster holds the roster's players.
  pub told_everybody :
      (d : PlayerDescription F) (l : List (ℕ × PlayerDescription F))
      → IsRoster l
      → find d.unique_id l ≡ some d
      → players (enter_all (players_of l) (insert_or_assign d.unique_id d [])) ≡ players l
  unfolding find
  told_everybody d l h itself = players-eq _ _ (λ k.
      find-enter_all l (insert_or_assign d.unique_id d []) k h
      ∙ ap (or_else (find k l)) (find-insert_or_assign_if d.unique_id k d [])
      ∙ elim (Bool-cases (d.unique_id == k)) [
        | inl same ↦
            rw (same, sym (ap (λ i. find i l) ((==_iff d.unique_id k).0 same)) ∙ itself) refl
        | inr other ↦ rw other (or_else-none (find k l))
      ])

  -- A client holds the server's players, once it has removed those whose departure it has not been
  -- told of.
  abbrev pub Lags : GameState F → GameClient F → Type 0
  Lags user g =
      apply_all (gone user.garbage_ids) (players g.map_objects) ≡ players user.player_roster

module _ {F : Type 0} (platform : GamePlatform F) where
  open platform use {base}

  -- A player's departure is one more that the clients have not been told of.
  pub on_client_disconnect-Lags :
      (user : GameState F) (c : Option (Connection GameMsg)) (g : GameClient F)
      → Lags user g
      → Lags (on_client_disconnect platform user c) g
  unfolding on_client_disconnect leave
  on_client_disconnect-Lags user none g h = h
  on_client_disconnect-Lags user (some c) g h =
      elim (Option-cases (find (get_id base c) user.player_roster)) [
        | inl stranger ↦ rw (stranger, on_client_disconnect) h
        | inr (d, known) ↦
            let id = get_id base c in
            rw (known, on_client_disconnect)
              (ap (λ cs. apply_all cs (players g.map_objects)) (gone-append user.garbage_ids id)
                ∙ apply_all-append (gone user.garbage_ids) (go id ∷ []) (players g.map_objects)
                ∙ ap (leave id) h)
      ]

module _ {F : Type 0} (platform : GamePlatform F) (three zero_yaw : F) where
  open platform use {base, desc, id}

  pub update_all-append :
      (xs ys : List (Message GameMsg)) (g : GameClient F)
      → update_all platform three zero_yaw g (xs ++ ys)
        ≡ (update_all platform three zero_yaw g xs >>= λ t. update_all platform three zero_yaw t ys)
  unfolding update_all
  update_all-append [] ys g = refl
  update_all-append (x ∷ xs) ys g =
      elim (Option-cases (update_client_state platform three zero_yaw g x)) [
        | inl lost ↦ rw lost refl
        | inr (g', handled) ↦ rw handled (update_all-append xs ys g')
      ]

  -- Between the states `s` and `t` of the server, the client at `q` is posted messages that take it
  -- from `g` to `g'`, which holds the players of `t`.
  abbrev pub Mirrors :
      ℕ → GameServer platform → GameServer platform → GameClient F → GameClient F → Type 0
  Mirrors q s t g g' =
      (news : List (Message GameMsg)) × (posted_to q t.posted ≡ posted_to q s.posted ++ news)
      × (update_all platform three zero_yaw g news ≡ some g')
      × (players g'.map_objects ≡ players t.user.player_roster)

  -- The server's messages of departures that the client at `q` is posted.
  pub farewells :
      (ids : List ℕ)
      → map (remove_player platform) ids ≡ map (message_of platform three zero_yaw) (gone ids)
  farewells [] = refl
  farewells (id ∷ ids) = ap (◌∷◌ (remove_player platform id)) (farewells ids)

  pub messages-append :
      (ids : List ℕ) (c : Command F)
      → map (message_of platform three zero_yaw) (gone ids ++ c ∷ [])
        ≡ map (message_of platform three zero_yaw) (gone ids)
          ++ message_of platform three zero_yaw c ∷ []
  messages-append [] c = refl
  messages-append (id ∷ ids) c = ap (◌∷◌ (remove_player platform id)) (messages-append ids c)

  pub gone-FitsIn :
      (ids : List ℕ) → All id.IsValue ids → All (FitsIn platform three zero_yaw) (gone ids)
  gone-FitsIn [] v = v
  gone-FitsIn (i ∷ ids) v = (v.0, gone-FitsIn ids v.1)

  pub posted_to-announced :
      (s : GameServer platform) (q : ℕ)
      → AreAlive platform s.heap s.connections
      → times q s.connections ≡ 1
      → posted_to q (announced platform s).posted
        ≡ posted_to q s.posted ++ map (message_of platform three zero_yaw) (gone s.user.garbage_ids)
  posted_to-announced s q h once =
      posted_to-append q s.posted _
      ∙ ap (◌++◌ (posted_to q s.posted)) (
          posted_to-announcements platform s q s.user.garbage_ids h once
          ∙ farewells s.user.garbage_ids)
