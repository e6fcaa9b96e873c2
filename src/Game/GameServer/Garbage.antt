-- ===== src/Game/GameServer/Garbage.antt =====
-- Departed players: the vector that is walked through may grow while it is walked through.
use networking_projects.Prelude.{
  ◌>>=◌, ℕ, ◌+◌, ◌≤◌, ◌<◌, ◌≡◌, ◌≢◌, refl, sym, ap, subst, ◌⊎◌, inl, inr, false, List, [], ◌∷◌,
  Option, none, some, arith, length, length-append, Bool-cases, Option-cases, if◌then◌else◌,
}
use networking_projects.Connection.{is_connected, get_id}
use networking_projects.Connection.Types.{Connection}
use networking_projects.Server.{deref, can_talk}
use networking_projects.Server.Broadcast.{reports, message_all_clients_lem}
use networking_projects.Game.Common.{GameMsg, PlayerDescription}
use networking_projects.Game.GameServer.{
  GameState, GamePlatform, GameServer, hooks, find, on_client_disconnect, announce_garbage, collect,
  collect_garbage, handle, on_message, remove_player,
}
use networking_projects.Message.{Message}

module _ {F : Type 0} (platform : GamePlatform F) where
  open platform use {base}

  -- The client is no longer connected, and its player is still in the roster.
  abbrev pub IsLost : List (Connection GameMsg) → GameState F → Option ℕ → Type 0
  IsLost heap user client =
      (c : Connection GameMsg) × (d : PlayerDescription F) × (deref heap client ≡ some c)
      × (c.socket_open ≡ false)
      × (find c.id user.player_roster ≡ some d)

  -- One of the clients is lost.
  abbrev pub HasLost : List (Connection GameMsg) → GameState F → List (Option ℕ) → Type 0
  HasLost heap user [] = ⊥
  HasLost heap user (c ∷ cs) = IsLost heap user c ⊎ HasLost heap user cs

  abbrev pub waste : GameState F → ℕ
  waste g = length g.garbage_ids

  -- A report leaves the state as it was, or puts one more identifier in the vector.
  disconnect-cases :
      (user : GameState F) (o : Option (Connection GameMsg))
      → (on_client_disconnect platform user o ≡ user)
        ⊎ (waste (on_client_disconnect platform user o) ≡ waste user + 1)
  unfolding on_client_disconnect get_id
  disconnect-cases user none = inl refl
  disconnect-cases user (some c) = elim (Option-cases (find c.id user.player_roster)) [
    | inl absent ↦ inl (rw (absent, on_client_disconnect))
    | inr (d, present) ↦
        inr (rw (present, on_client_disconnect) (length-append user.garbage_ids (c.id ∷ [])))
  ]

  disconnect-lost :
      (heap : List (Connection GameMsg)) (user : GameState F) (client : Option ℕ)
      → IsLost heap user client
      → (can_talk base (hooks platform) heap client ≡ false)
        × (waste (on_client_disconnect platform user (deref heap client)) ≡ waste user + 1)
  unfolding on_client_disconnect get_id can_talk is_connected
  disconnect-lost heap user client (c, d, e, closed, present) = (
    rw (e, can_talk) closed,
    rw (e, present, on_client_disconnect) (length-append user.garbage_ids (c.id ∷ [])),
  )

  abbrev pub reported : List (Connection GameMsg) → GameState F → List (Option ℕ) → GameState F
  reported = reports base (hooks platform)

  -- The state after one client of the loop.
  abbrev pub told : List (Connection GameMsg) → GameState F → Option ℕ → GameState F
  told heap user c =
      if can_talk base (hooks platform) heap c
      then user
      else on_client_disconnect platform user (deref heap c)

  told-cases :
      (heap : List (Connection GameMsg)) (user : GameState F) (c : Option ℕ)
      → (told heap user c ≡ user) ⊎ (waste (told heap user c) ≡ waste user + 1)
  told-cases heap user c = elim (Bool-cases (can_talk base (hooks platform) heap c)) [
    | inl alive ↦ inl (rw alive)
    | inr dead ↦ rw dead (disconnect-cases user (deref heap c))
  ]

  told-lost :
      (heap : List (Connection GameMsg)) (user : GameState F) (c : Option ℕ)
      → IsLost heap user c
      → waste (told heap user c) ≡ waste user + 1
  told-lost heap user c lost = let (dead, more) = disconnect-lost heap user c lost in rw dead more

  reported-le :
      (heap : List (Connection GameMsg)) (cs : List (Option ℕ)) (user : GameState F)
      → waste user ≤ waste (reported heap user cs)
  reported-le heap [] user = omega arith
  reported-le heap (c ∷ cs) user = elim (told-cases heap user c) [
    | inl kept ↦ omega (arith, ap waste kept, reported-le heap cs (told heap user c))
    | inr more ↦ omega (arith, more, reported-le heap cs (told heap user c))
  ]

  pub reported-lt :
      (heap : List (Connection GameMsg)) (cs : List (Option ℕ)) (user : GameState F)
      → HasLost heap user cs
      → waste user < waste (reported heap user cs)
  reported-lt heap [] user h = absurd h
  reported-lt heap (c ∷ cs) user (inl lost) =
      omega (arith, told-lost heap user c lost, reported-le heap cs (told heap user c))
  reported-lt heap (c ∷ cs) user (inr later) = elim (told-cases heap user c) [
    | inl kept ↦
        let still = subst (λ u. HasLost heap u cs) (sym kept) later in
        omega (arith, ap waste kept, reported-lt heap cs (told heap user c) still)
    | inr more ↦ omega (arith, more, reported-le heap cs (told heap user c))
  ]

  pub collect-lost :
      (s : GameServer platform) (ids : List ℕ)
      → ids ≢ []
      → HasLost s.heap s.user s.connections
      → collect platform s ids ≡ none
  unfolding collect_garbage announce_garbage
  collect-lost s [] waits lost = absurd (waits refl)
  collect-lost s (pid ∷ pids) waits lost =
      let user_after =
        ap (λ (t : GameServer platform). waste t.user)
          (message_all_clients_lem base (hooks platform) s (remove_player platform pid) none) in
      let grown = reported-lt s.heap s.connections s.user lost in ground (arith, user_after, grown)

  -- When a message of any kind comes while departed players wait to be announced, and meanwhile
  -- another client in the container has lost its connection with its player still in the roster,
  -- the handler runs into undefined behaviour: announcing the first departure puts the other
  -- player's identifier into the very vector that the loop is walking through.
  pub on_message_undefined :
      (s : GameServer platform) (client : Option ℕ) (msg : Message GameMsg)
      → s.user.garbage_ids ≢ []
      → HasLost s.heap s.user s.connections
      → on_message platform s client msg ≡ none
  unfolding on_message collect_garbage
  on_message_undefined s client msg waits lost =
      ap (λ o. o >>= λ t. handle platform t client msg msg.header.id)
        (collect-lost s s.user.garbage_ids waits lost)
