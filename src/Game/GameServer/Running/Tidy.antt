-- ===== src/Game/GameServer/Running/Tidy.antt =====
-- The roster and the departed players, while the game's server runs.
use networking_projects.Prelude.{
  ℕ, ◌≡◌, sym, subst, List, [], ◌∷◌, ◌++◌, Option, none, some, All, Option-cases, inl, inr,
}
use networking_projects.Connection.{get_id}
use networking_projects.Connection.Types.{Connection}
use networking_projects.Server.{new_server, start, wait_for_client_connection}
use networking_projects.Server.Running.{Happening}
use networking_projects.Server.Running.User.{
  Respects, message_client-user, message_all_clients-user, serve-user,
}
use networking_projects.Game.Common.{GameMsg, PlayerDescription}
use networking_projects.Game.GameServer.{
  GameState, GamePlatform, GameServer, hooks, find, insert_or_assign, erase, on_client_connect,
  on_client_disconnect, on_client_validated, clear_garbage, enrol, on_message,
}
use networking_projects.Game.GameServer.Maps.{find-erase_same, find-erase-none}
use networking_projects.Game.GameServer.Running.{main, new_game_server}
use networking_projects.Game.GameServer.Running.Steps.{Closed, on_message-Inv}
use networking_projects.Game.Players.Roster.{IsRoster, insert_or_assign-IsRoster, erase-IsRoster}

module _ {F : Type 0} where
  -- Every player is in the roster under its own identifier, once, and who waits to be announced is
  -- not in it.
  abbrev pub IsTidy : GameState F → Type 0
  IsTidy user =
      IsRoster user.player_roster × All (λ id. find id user.player_roster ≡ none) user.garbage_ids

  -- An erasure leaves the erased, and whoever was missing, missing.
  erase-missing :
      (id : ℕ) (roster : List (ℕ × PlayerDescription F)) (ids : List ℕ)
      → All (λ i. find i roster ≡ none) ids
      → All (λ i. find i (erase id roster) ≡ none) (ids ++ id ∷ [])
  erase-missing id roster [] h = (find-erase_same id roster, tt)
  erase-missing id roster (i ∷ ids) h =
      (find-erase-none id i roster h.0, erase-missing id roster ids h.1)

module _ {F : Type 0} (platform : GamePlatform F) where
  open platform use {base}

  on_client_disconnect-IsTidy :
      (user : GameState F) (c : Option (Connection GameMsg))
      → IsTidy user
      → IsTidy (on_client_disconnect platform user c)
  unfolding on_client_disconnect
  on_client_disconnect-IsTidy user none h = h
  on_client_disconnect-IsTidy user (some c) (roster, missing) =
      let id = get_id base c in
      elim (Option-cases (find id user.player_roster)) [
        | inl stranger ↦ rw (stranger, on_client_disconnect) (roster, missing)
        | inr (d, known) ↦
            rw (known, on_client_disconnect)
              (
                erase-IsRoster id user.player_roster roster,
                erase-missing id user.player_roster user.garbage_ids missing,
              )
      ]

  IsTidy-hooks : Respects base (hooks platform) IsTidy
  unfolding on_client_connect on_client_validated
  IsTidy-hooks = record {
    connects = λ user c h. h;
    disconnects = on_client_disconnect-IsTidy;
    validates = λ user c h. h;
  }

  IsTidy-steps : Closed platform (λ s. IsTidy s.user)
  unfolding enrol clear_garbage
  IsTidy-steps = record {
    told = message_client-user base (hooks platform) IsTidy-hooks;
    all_told = message_all_clients-user base (hooks platform) IsTidy-hooks;
    enrolled = λ s id desc nobody itself (roster, missing). (
      insert_or_assign-IsRoster id desc s.user.player_roster itself roster,
      subst (All (λ i. find i (insert_or_assign id desc s.user.player_roster) ≡ none)) (sym nobody)
          tt,
    );
    cleared = λ s (roster, missing). (roster, tt);
  }

  -- Whatever asio reports, in any order and between any calls of `Update`, in the server that the
  -- program's turns leave, when they are defined, every player stands in the roster once and under
  -- the identifier of its description, and no player that waits to be announced as departed stands in
  -- it.
  pub main-IsTidy :
      (turns : List (List (Happening GameMsg))) (t : GameServer platform)
      → main platform turns ≡ some t
      → IsTidy t.user
  unfolding main new_game_server new_server start wait_for_client_connection
  main-IsTidy turns t e =
      serve-user base (hooks platform) IsTidy-hooks (on_message platform)
        (on_message-Inv platform IsTidy-steps) turns
        (start base (hooks platform) (new_game_server platform)).0 t e (tt, tt)
