-- ===== src/Connection/Handshake.antt =====
-- Who is let in: the challenge of a server's end, and the answer of a client's.
use networking_projects.Prelude.{
  ℕ, ◌^◌, ◌%◌, ◌<◌, ◌≡◌, ◌≢◌, ◌↔◌, refl, sym, ap, true≢false, ◌∙◌, true, false, List, [], ◌∷◌, some,
  arith,
}
use native.Mathlib.Decide.{ℕ_discrete}
use networking_projects.Scramble.{scramble}
use networking_projects.Scramble.Laws.{scramble-lt, scramble-eq_iff}
use networking_projects.Connection.{
  new_connection, connect_to_client, on_connected, on_validation_read, on_validation_written,
}
use networking_projects.Connection.Types.{
  Connection, Platform, server, client, Action, write, read, client_validated, header_read,
  validation_written, validation_read,
}

module _ {T : Type 0} (platform : Platform T) where
  open platform use {header, word, word_range}

  -- A server's end for a challenge, after `ConnectToClient`.
  abbrev pub challenger : ℕ → ℕ → Connection T
  challenger now uid = (connect_to_client platform (new_connection platform server true now) uid).0

  -- What that end does when an answer comes.
  abbrev pub answered : ℕ → ℕ → List ℕ → Connection T × List (Action T)
  answered now uid bytes = on_validation_read platform (challenger now uid) (some bytes)

  -- The client is let in: the server is told, and messages are read from then on.
  abbrev pub IsAdmitted : Connection T × List (Action T) → Type 0
  IsAdmitted (c, actions) =
      (c.socket_open ≡ true) × (actions ≡ client_validated ∷ read header_read header.size ∷ [])

  -- The socket is closed and nothing more is asked for.
  abbrev pub IsRefused : Connection T × List (Action T) → Type 0
  IsRefused (c, actions) = (c.socket_open ≡ false) × (actions ≡ [])

  right_answer :
      (now uid : ℕ) (bytes : List ℕ)
      → word.of_bytes bytes ≡ scramble now
      → IsAdmitted (answered now uid bytes)
  unfolding new_connection connect_to_client on_validation_read
  right_answer now uid bytes e = ground arith

  wrong_answer :
      (now uid : ℕ) (bytes : List ℕ)
      → word.of_bytes bytes ≢ scramble now
      → IsRefused (answered now uid bytes)
  unfolding new_connection connect_to_client on_validation_read
  wrong_answer now uid bytes e = ground arith

  -- An honest exchange for every 64-bit challenge: the server's end writes the challenge and waits
  -- for the answer; a client's end that connects waits for a challenge; when those bytes reach it,
  -- it writes an answer (and reads messages from then on), and when the answer reaches the server's
  -- end the client is let in.
  pub honest_client-IsAdmitted :
      (now uid : ℕ)
      → now < 2 ^ 64
      → let me = (on_connected platform (new_connection platform client false 0) true).0 in
        let reply = on_validation_read platform me (some (word.to_bytes now)) in
        (connect_to_client platform (new_connection platform server true now) uid ≡ (
          challenger now uid,
          write validation_written (word.to_bytes now) ∷ read validation_read word.size ∷ [],
        ))
        × (reply.1 ≡ write validation_written (word.to_bytes (scramble now)) ∷ [])
        × (on_validation_written platform reply.0 true
            ≡ (reply.0, read header_read header.size ∷ []))
        × IsAdmitted (answered now uid (word.to_bytes (scramble now)))
  unfolding new_connection connect_to_client on_connected on_validation_read on_validation_written
  honest_client-IsAdmitted now uid h =
      let e = word.of_bytes-to_bytes now (word_range now h) in
      let f = word.of_bytes-to_bytes (scramble now) (word_range (scramble now) (scramble-lt now)) in
      (
        refl,
        ap (λ n. write validation_written (word.to_bytes (scramble n)) ∷ []) e,
        refl,
        right_answer now uid (word.to_bytes (scramble now)) f,
      )

  -- The answer to a challenge is an equation: a client is let in exactly if the 64-bit number that it
  -- sends is the scrambled challenge, and is refused otherwise.
  pub answered_iff :
      (now uid x : ℕ)
      → x < 2 ^ 64
      → (IsAdmitted (answered now uid (word.to_bytes x)) ↔ (x ≡ scramble now))
        × (IsRefused (answered now uid (word.to_bytes x)) ↔ ¬ (x ≡ scramble now))
  answered_iff now uid x h = elim (ℕ_discrete x (scramble now)) [
    | yes right ↦
        let admitted = right_answer now uid (word.to_bytes x) (read_back ∙ right) in
        (
          (λ _. right, λ _. admitted),
          (
            λ refused. absurd (true≢false (sym admitted.0 ∙ refused.0)),
            λ wrong. absurd (wrong right),
          ),
        )
    | no wrong ↦
        let refused = wrong_answer now uid (word.to_bytes x) (λ e. wrong (sym read_back ∙ e)) in
        (
          (
            λ admitted. absurd (true≢false (sym admitted.0 ∙ refused.0)),
            λ right. absurd (wrong right),
          ),
          (λ _. wrong, λ _. refused),
        )
  ]
    where
      read_back : word.of_bytes (word.to_bytes x) ≡ x
      read_back = word.of_bytes-to_bytes x (word_range x h)

  -- An answer that was right once is right for another challenge exactly if the two agree in their
  -- lowest 56 bits.
  pub replayed_answer_iff :
      (now later uid : ℕ)
      → (IsAdmitted (answered later uid (word.to_bytes (scramble now))))
        ↔ (now % 2 ^ 56 ≡ later % 2 ^ 56)
  replayed_answer_iff now later uid = (
    λ a.
        (scramble-eq_iff now later).0
          ((answered_iff later uid (scramble now) (scramble-lt now)).0.0 a),
    λ e.
        (answered_iff later uid (scramble now) (scramble-lt now)).0.1
          ((scramble-eq_iff now later).1 e),
  )
