-- ===== src/Game/GameServer/Running/Admission.antt =====
-- A client at the door of the game's server: the handshake, as the whole server goes through it.
use networking_projects.Prelude.{
  ◌>>=◌, ℕ, ◌≡◌, refl, sym, ap, ◌∙◌, Bool, true, false, List, [], ◌∷◌, ◌++◌, append_assoc, some,
  ◌==◌, if◌then◌else◌, length, get_elem?, set, get_elem?-append, get_elem?-set_same, Bool-cases,
  inl, inr,
}
use networking_projects.Scramble.{scramble}
use networking_projects.Message.{empty}
use networking_projects.Connection
use networking_projects.Connection.Types.{
  Connection, Owner, Action, write, read, post_send, header_read, validation_read,
  validation_written, client_validated,
}
use networking_projects.Server.{on_accept, perform}
use networking_projects.Server.Running.Answers.{perform-validated}
use networking_projects.Server.Running
use networking_projects.Server.Running.{Happening, accepted, completed, absorb, happen, happen_all}
use networking_projects.Game.Common.{GameMsg, client_accepted}
use networking_projects.Game.GameServer.{
  GamePlatform, GameServer, hooks, on_client_connect, on_client_validated,
}

module _ {F : Type 0} (platform : GamePlatform F) where
  open platform.base use {header, word}

  abbrev door : GameServer platform → ℕ → List ℕ → List (Happening GameMsg)
  door s now bytes =
      accepted (some now) ∷ completed (length s.heap) (Running.validation_read (some bytes)) ∷ []

  -- What the new connection is asked to do first: send the challenge, and wait for the answer.
  abbrev challenge : ℕ → ℕ → List (ℕ × Action GameMsg)
  challenge p now =
      (p, write validation_written (word.to_bytes now)) ∷ (p, read validation_read word.size) ∷ []

  -- What it is asked once the answer was right.
  abbrev welcome : ℕ → List (ℕ × Action GameMsg)
  welcome p = (p, post_send (empty client_accepted)) ∷ (p, read header_read header.size) ∷ []

  abbrev is_right : ℕ → List ℕ → Bool
  is_right now bytes = word.of_bytes bytes == scramble now

  -- The connection made at this time.
  abbrev newcomer : GameServer platform → ℕ → Connection GameMsg
  newcomer s now =
      (Connection.connect_to_client platform.base
        (Connection.new_connection platform.base Owner.server true now) s.id_counter).0

  -- The server after both, with its new connection open if the answer is right and closed if not.
  abbrev pub Admits : GameServer platform → ℕ → List ℕ → Type 0
  Admits s now bytes =
      (t : GameServer platform) × (c : Connection GameMsg) × (happen_all platform.base
          (hooks platform) s (door s now bytes)
        ≡ some t)
      × (get_elem? t.heap (length s.heap) ≡ some c)
      × (c.id ≡ s.id_counter)
      × (c.socket_open ≡ is_right now bytes)
      × (t.posted
          ≡ s.posted
            ++ (challenge (length s.heap) now
                ++ (if is_right now bytes then welcome (length s.heap) else [])))

  -- The handler at a connection that is there.
  happen-completed :
      (s : GameServer platform) (p : ℕ) (c : Connection GameMsg) (bytes : List ℕ)
      → get_elem? s.heap p ≡ some c
      → happen platform.base (hooks platform) s (completed p (Running.validation_read (some bytes)))
        ≡ some (
            absorb platform.base
              (hooks platform)
              p
              s
              (Connection.on_validation_read platform.base c (some bytes)))
  unfolding happen Running.handle
  happen-completed s p c bytes there = rw (there, happen) refl

  -- What the server does when a connection's answer was right: it welcomes the client.
  welcomed :
      (s : GameServer platform) (p : ℕ) (c : Connection GameMsg)
      → get_elem? s.heap p ≡ some c
      → perform platform.base
          (hooks platform)
          p
          s
          (client_validated ∷ read header_read header.size ∷ [])
        ≡ record s { posted = s.posted ++ welcome p }
  unfolding perform on_client_validated
  welcomed s p c there =
      perform-validated platform.base (hooks platform) p s c (read header_read header.size ∷ [])
        there
      ∙ ap (λ l. record s { posted = l })
          (append_assoc s.posted ((p, post_send (empty client_accepted)) ∷ [])
            ((p, read header_read header.size) ∷ []))

  -- The server once a connection has come.
  abbrev entered : GameServer platform → ℕ → GameServer platform
  entered s now = on_accept platform.base (hooks platform) s (some (true, now))

  entered-get :
      (s : GameServer platform) (now : ℕ)
      → get_elem? (entered s now).heap (length s.heap) ≡ some (newcomer s now)
  unfolding on_accept Connection.new_connection Connection.connect_to_client on_client_connect
  entered-get s now = get_elem?-append s.heap (newcomer s now)

  entered-posted :
      (s : GameServer platform) (now : ℕ)
      → (entered s now).posted ≡ s.posted ++ challenge (length s.heap) now
  unfolding on_accept Connection.new_connection Connection.connect_to_client
      Connection.write_validation Connection.read_validation on_client_connect
  entered-posted s now = refl

  module _ (s : GameServer platform) (now : ℕ) (bytes : List ℕ) where
    abbrev p : ℕ
    p = length s.heap

    abbrev c : Connection GameMsg
    c = newcomer s now

    -- The server with its newcomer as the answer left it.
    abbrev left : Connection GameMsg → GameServer platform
    left c' = record (entered s now) { heap = set (entered s now).heap p c' }

    left-get : (c' : Connection GameMsg) → get_elem? (left c').heap p ≡ some c'
    left-get c' = get_elem?-set_same (entered s now).heap p c c' (entered-get s now)

    answered :
        (r : Connection GameMsg × List (Action GameMsg))
        → Connection.on_validation_read platform.base c (some bytes) ≡ r
        → happen_all platform.base (hooks platform) s (door s now bytes)
          ≡ some (perform platform.base (hooks platform) p (left r.0) r.1)
    unfolding happen_all happen
    answered r e =
        ap (λ o. o >>= λ t. some t)
          (happen-completed (entered s now) p c bytes (entered-get s now)
            ∙ ap (λ x. some (absorb platform.base (hooks platform) p (entered s now) x)) e)

    admitted : is_right now bytes ≡ true → Admits s now bytes
    unfolding Connection.on_validation_read Connection.read_header Connection.new_connection
        Connection.connect_to_client
    admitted right =
        let c' = record c { handshake_in = word.of_bytes bytes } in
        let answer : Connection.on_validation_read platform.base c (some bytes)
            ≡ (c', client_validated ∷ read header_read header.size ∷ []) =
          rw right refl in
        (
          record (left c') { posted = (entered s now).posted ++ welcome p },
          c',
          answered _ answer ∙ ap some (welcomed (left c') p c' (left-get c')),
          left-get c',
          refl,
          sym right,
          ap (λ l. l ++ welcome p) (entered-posted s now)
              ∙ append_assoc s.posted (challenge p now) (welcome p)
              ∙ ap (λ b. s.posted ++ (challenge p now ++ (if b then welcome p else [])))
                  (sym right),
        )

    refused : is_right now bytes ≡ false → Admits s now bytes
    unfolding Connection.on_validation_read Connection.close Connection.new_connection
        Connection.connect_to_client perform
    refused wrong =
        let c' = record c { handshake_in = word.of_bytes bytes; socket_open = false } in
        let answer : Connection.on_validation_read platform.base c (some bytes) ≡ (c', []) =
          rw wrong refl in
        (
          left c',
          c',
          answered _ answer,
          left-get c',
          refl,
          sym wrong,
          entered-posted s now
              ∙ ap (λ b. s.posted ++ (challenge p now ++ (if b then welcome p else [])))
                  (sym wrong),
        )

  -- Whatever state the game's server is in, when a connection is accepted at this time and its answer is
  -- read, the new connection has the next identifier; it was sent the time as its challenge; if and only
  -- if the answer is the scrambled time, its socket stays open, the client is told that it is accepted,
  -- and its first header is awaited, and otherwise nothing more is asked for it and its socket is closed.
  pub happen_all-Admits : (s : GameServer platform) (now : ℕ) (bytes : List ℕ) → Admits s now bytes
  happen_all-Admits s now bytes = elim (Bool-cases (is_right now bytes)) [
    | inl right ↦ admitted s now bytes right
    | inr wrong ↦ refused s now bytes wrong
  ]
