-- ===== src/Game/GameServer/Growth.antt =====
-- When the announcement of departures is defined: a broadcast leaves the players alone, or it finds one
-- more that has left.
use networking_projects.Prelude.{
  ◌>>=◌, ℕ, ◌≡◌, ◌≢◌, ◌↔◌, refl, sym, ap, ◌∙◌, ◌⊎◌, inl, inr, true, List, [], ◌∷◌, ◌++◌, Option,
  none, some, some≢none, arith, length, ◌==◌, ==_iff, ==_refl, Bool-cases, Option-cases,
}
use networking_projects.Message.{Message}
use networking_projects.Connection.{get_id, is_connected}
use networking_projects.Connection.Types.{Connection}
use networking_projects.Server.{can_talk, deref}
use networking_projects.Server.Broadcast.{survivors, message_all_clients_lem}
use networking_projects.Game.Common.{
  GameMsg, client_register_with_server, game_update_player, server_get_status, server_get_ping,
  client_accepted, client_assign_id, client_unregister_with_server, game_add_player,
  game_remove_player, other,
}
use networking_projects.Game.GameServer.{
  GameState, GamePlatform, GameServer, hooks, find, on_client_disconnect, tell_all, remove_player,
  announce_garbage, clear_garbage, collect, collect_garbage, handle, on_message,
}
use networking_projects.Game.GameServer.Departures.{AreAlive, announcements, announce-alive}
use networking_projects.Game.GameServer.Garbage.{
  IsLost, HasLost, reported, reported-lt, told, on_message_undefined,
}

module _ {F : Type 0} (platform : GamePlatform F) where
  open platform use {base}

  told-IsLost :
      (heap : List (Connection GameMsg)) (user : GameState F) (c : Option ℕ)
      (o : Option (Connection GameMsg))
      → deref heap c ≡ o
      → (told platform heap user c ≡ user) ⊎ IsLost platform heap user c
  unfolding on_client_disconnect get_id can_talk is_connected
  told-IsLost heap user c none e = inl (rw (e, can_talk) refl)
  told-IsLost heap user c (some conn) e = elim (Bool-cases conn.socket_open) [
    | inl alive ↦ inl (rw (e, can_talk, alive) refl)
    | inr closed ↦ elim (Option-cases (find conn.id user.player_roster)) [
      | inl absent ↦ inl (rw (e, can_talk, closed, absent, on_client_disconnect) refl)
      | inr (d, present) ↦ inr (conn, d, e, closed, present)
    ]
  ]

  reported-HasLost :
      (heap : List (Connection GameMsg)) (cs : List (Option ℕ)) (user : GameState F)
      → (reported platform heap user cs ≡ user) ⊎ HasLost platform heap user cs
  reported-HasLost heap [] user = inl refl
  reported-HasLost heap (c ∷ cs) user = elim (told-IsLost heap user c (deref heap c) refl) [
    | inl kept ↦ elim (reported-HasLost heap cs user) [
      | inl rest ↦ inl (ap (λ u. reported platform heap u cs) kept ∙ rest)
      | inr later ↦ inr (inr later)
    ]
    | inr lost ↦ inr (inl lost)
  ]

  tell_all-reported :
      (s : GameServer platform) (m : Message GameMsg) (ignore : Option ℕ)
      → (tell_all platform s m ignore).user ≡ reported platform s.heap s.user s.connections
  tell_all-reported s m ignore =
      ap (λ t. t.user) (message_all_clients_lem base (hooks platform) s m ignore)

  -- When as many players wait to be announced after a broadcast as before, nothing has changed.
  pub tell_all-unchanged :
      (s : GameServer platform) (m : Message GameMsg) (ignore : Option ℕ)
      → (length (tell_all platform s m ignore).user.garbage_ids == length s.user.garbage_ids) ≡ true
      → (tell_all platform s m ignore).user ≡ s.user
  tell_all-unchanged s m ignore same =
      let count : length (tell_all platform s m ignore).user.garbage_ids
          ≡ length s.user.garbage_ids =
        (==_iff _ _).0 same in
      let found = tell_all-reported s m ignore in
      elim (reported-HasLost s.heap s.connections s.user) [
        | inl kept ↦ found ∙ kept
        | inr lost ↦ absurd (
            omega (
              arith,
              reported-lt platform s.heap s.connections s.user lost,
              count,
              ap (λ v. length v.garbage_ids) found,
            ))
      ]

  survivors-AreAlive :
      (heap : List (Connection GameMsg)) (cs : List (Option ℕ))
      → AreAlive platform heap (survivors base (hooks platform) heap cs)
  survivors-AreAlive heap [] = tt
  survivors-AreAlive heap (c ∷ cs) = elim (Bool-cases (can_talk base (hooks platform) heap c)) [
    | inl alive ↦ rw alive (alive, survivors-AreAlive heap cs)
    | inr dead ↦ rw dead (survivors-AreAlive heap cs)
  ]

  tell_all-AreAlive :
      (s : GameServer platform) (m : Message GameMsg) (ignore : Option ℕ)
      → AreAlive platform
          (tell_all platform s m ignore).heap
          (tell_all platform s m ignore).connections
  tell_all-AreAlive s m ignore =
      rw (message_all_clients_lem base (hooks platform) s m ignore)
        (survivors-AreAlive s.heap s.connections)

  -- Where nobody is lost, all departures are announced.
  collect-IsDefined :
      (pids : List ℕ) (s : GameServer platform)
      → reported platform s.heap s.user s.connections ≡ s.user
      → collect platform s pids ≢ none
  unfolding collect announce_garbage
  collect-IsDefined [] s kept e = some≢none e
  collect-IsDefined (pid ∷ pids) s kept e =
      let m = remove_player platform pid in
      let s' = tell_all platform s m none in
      let same : (length s'.user.garbage_ids == length s.user.garbage_ids) ≡ true =
        ap (λ (u : GameState F). length u.garbage_ids == length s.user.garbage_ids)
          (tell_all-reported s m none ∙ kept)
        ∙ ==_refl (length s.user.garbage_ids) in
      let done = announce-alive platform pids s' (tell_all-AreAlive s m none) in
      let given : collect platform s (pid ∷ pids)
          ≡ some (
              clear_garbage platform
                (record s' { posted = s'.posted ++ announcements platform s' pids })) =
        rw (same, done) refl in
      some≢none (sym given ∙ e)

  handle-IsDefined :
      (s : GameServer platform) (client : Option ℕ) (msg : Message GameMsg) (id : GameMsg)
      → id ≢ client_register_with_server
      → handle platform s client msg id ≢ none
  unfolding handle
  handle-IsDefined s client msg client_register_with_server h e = h refl
  handle-IsDefined s client msg game_update_player h e = some≢none e
  handle-IsDefined s client msg server_get_status h e = some≢none e
  handle-IsDefined s client msg server_get_ping h e = some≢none e
  handle-IsDefined s client msg client_accepted h e = some≢none e
  handle-IsDefined s client msg client_assign_id h e = some≢none e
  handle-IsDefined s client msg client_unregister_with_server h e = some≢none e
  handle-IsDefined s client msg game_add_player h e = some≢none e
  handle-IsDefined s client msg game_remove_player h e = some≢none e
  handle-IsDefined s client msg (other n) h e = some≢none e

  -- A message of any kind but a registration runs into undefined behaviour exactly if departed players
  -- wait to be announced while another client in the container has lost its connection with its
  -- player still in the roster: announcing the first departure then puts the other player's identifier
  -- into the very vector that the loop is walking through.
  pub on_message-none_iff :
      (s : GameServer platform) (client : Option ℕ) (msg : Message GameMsg)
      → msg.header.id ≢ client_register_with_server
      → (on_message platform s client msg ≡ none)
        ↔ ((s.user.garbage_ids ≢ []) × HasLost platform s.heap s.user s.connections)
  unfolding on_message collect_garbage
  on_message-none_iff s client msg no_registration = (
    λ undefined.
        let lost : collect platform s s.user.garbage_ids ≡ none =
          elim (Option-cases (collect platform s s.user.garbage_ids)) [
            | inl here ↦ here
            | inr (t, collected) ↦ absurd (
                handle-IsDefined t client msg msg.header.id no_registration (
                  sym (ap (λ o. o >>= λ u. handle platform u client msg msg.header.id) collected)
                  ∙ undefined))
          ] in
        (
          λ nobody. some≢none (sym (ap (collect platform s) nobody) ∙ lost),
          elim (reported-HasLost s.heap s.connections s.user) [
            | inl kept ↦ absurd (collect-IsDefined s.user.garbage_ids s kept lost)
            | inr found ↦ found
          ],
        ),
    λ (waits, lost). on_message_undefined platform s client msg waits lost,
  )
