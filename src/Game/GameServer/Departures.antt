-- ===== src/Game/GameServer/Departures.antt =====
-- Departed players are announced, when nobody else has gone meanwhile.
use networking_projects.Prelude.{
  ◌>>=◌, ℕ, ◌≡◌, refl, sym, ap, ◌∙◌, true, List, [], ◌∷◌, ◌++◌, append-nil, append_assoc, Option,
  none, some, All, ==_refl, length,
}
use mathlib.Core.Path.{ap₂}
use networking_projects.Message.{Message}
use networking_projects.Connection.Types.{Connection, Action}
use networking_projects.Server.{can_talk}
use networking_projects.Server.Broadcast.{
  recipients, survivors, reports, sends_to, message_all_clients_lem,
}
use networking_projects.Game.Common.{GameMsg}
use networking_projects.Game.GameServer.{
  GameState, GamePlatform, GameServer, hooks, tell_all, announce_garbage, collect, clear_garbage,
  collect_garbage, handle, on_message, remove_player,
}

module _ {F : Type 0} (platform : GamePlatform F) where
  open platform use {base}

  abbrev pub AreAlive : List (Connection GameMsg) → List (Option ℕ) → Type 0
  AreAlive heap = All (λ c. can_talk base (hooks platform) heap c ≡ true)

  pub reports-alive :
      (heap : List (Connection GameMsg)) (cs : List (Option ℕ)) (user : GameState F)
      → AreAlive heap cs
      → reports base (hooks platform) heap user cs ≡ user
  reports-alive heap [] user h = refl
  reports-alive heap (c ∷ cs) user h = rw (h.0) (reports-alive heap cs user h.1)

  pub survivors-alive :
      (heap : List (Connection GameMsg)) (cs : List (Option ℕ))
      → AreAlive heap cs
      → survivors base (hooks platform) heap cs ≡ cs
  survivors-alive heap [] h = refl
  survivors-alive heap (c ∷ cs) h = rw (h.0) (ap (◌∷◌ c) (survivors-alive heap cs h.1))

  -- One announcement for every client, of each departed player in turn.
  abbrev pub announcements : GameServer platform → List ℕ → List (ℕ × Action GameMsg)
  announcements s [] = []
  announcements s (pid ∷ pids) =
      sends_to base (hooks platform) (remove_player platform pid)
        (recipients base (hooks platform) s.heap none s.connections)
      ++ announcements s pids

  tell_all-alive :
      (s : GameServer platform) (msg : Message GameMsg)
      → AreAlive s.heap s.connections
      → tell_all platform s msg none ≡ record s {
        posted =
            s.posted
            ++ sends_to base
                (hooks platform)
                msg
                (recipients base (hooks platform) s.heap none s.connections);
      }
  tell_all-alive s msg h =
      let out =
        s.posted
        ++ sends_to base (hooks platform) msg
            (recipients base (hooks platform) s.heap none s.connections) in
      message_all_clients_lem base (hooks platform) s msg none
      ∙ ap₂ (λ u cs. record s { posted = out; user = u; connections = cs })
          (reports-alive s.heap s.connections s.user h) (survivors-alive s.heap s.connections h)

  pub announce-alive :
      (pids : List ℕ) (s : GameServer platform)
      → AreAlive s.heap s.connections
      → announce_garbage platform s pids
        ≡ some (record s { posted = s.posted ++ announcements s pids })
  unfolding announce_garbage
  announce-alive [] s h = ap (λ l. some (record s { posted = l })) (sym (append-nil s.posted))
  announce-alive (pid ∷ pids) s h =
      let out =
        sends_to base (hooks platform) (remove_player platform pid)
          (recipients base (hooks platform) s.heap none s.connections) in
      let s' = record s { posted = s.posted ++ out } in
      rw (tell_all-alive s (remove_player platform pid) h, ==_refl (length s.user.garbage_ids))
        (announce-alive pids s' h
          ∙ ap (λ l. some (record s { posted = l }))
              (append_assoc s.posted out (announcements s pids)))

  -- The server when all departures have been announced.
  abbrev pub announced : GameServer platform → GameServer platform
  announced s = record s {
    posted = s.posted ++ announcements s s.user.garbage_ids;
    user = record { player_roster = s.user.player_roster; garbage_ids = [] };
  }

  collect-alive :
      (pids : List ℕ) (s : GameServer platform)
      → s.user.garbage_ids ≡ pids
      → AreAlive s.heap s.connections
      → collect platform s pids
        ≡ some (record s {
          posted = s.posted ++ announcements s pids;
          user = record { player_roster = s.user.player_roster; garbage_ids = [] };
        })
  unfolding collect_garbage
  collect-alive [] s e h =
      ap₂
        (λ l (g : List ℕ). some (record s {
          posted = l;
          user = record { player_roster = s.user.player_roster; garbage_ids = g };
        }))
        (sym (append-nil s.posted)) e
  collect-alive (pid ∷ pids) s e h =
      ap (λ o. o >>= λ t. some (clear_garbage platform t)) (announce-alive (pid ∷ pids) s h)

  -- When a message of any kind comes and all clients of the container are connected, every one of
  -- them is posted the departure of each player that waits to be announced, in the order in which
  -- they left; none waits any more; and the message is then handled in that state.
  pub on_message_departures :
      (s : GameServer platform) (client : Option ℕ) (msg : Message GameMsg)
      → AreAlive s.heap s.connections
      → on_message platform s client msg ≡ handle platform (announced s) client msg msg.header.id
  unfolding on_message collect_garbage
  on_message_departures s client msg h =
      ap (λ o. o >>= λ t. handle platform t client msg msg.header.id)
        (collect-alive s.user.garbage_ids s refl h)
