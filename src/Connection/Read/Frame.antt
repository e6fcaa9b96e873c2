-- ===== src/Connection/Read/Frame.antt =====
-- One frame through the receiving half.
use networking_projects.Prelude.{
  ℕ, ◌^◌, ◌<◌, ◌≡◌, refl, sym, ap, ◌∙◌, List, [], ◌∷◌, ◌++◌, append_assoc, append-nil, Option, none,
  some, false, arith, length, take, drop, take-append, drop-append, length-append, ltb, ltb-false,
}
use networking_projects.Message.{Message, MessageHeader}
use networking_projects.Message.Bytes.{resize, length-resize}
use networking_projects.Connection.{on_header_read, on_body_read, add_to_incoming_message_queue}
use networking_projects.Connection.Types.{
  Connection, Platform, OwnedMessage, Owner, server, client, Handler, header_read, body_read,
  Action, read, enqueue,
}
use networking_projects.Connection.Read.{
  Incoming, receive_step, receive, listening, perform, on_read,
}
use networking_projects.Connection.Write.{frame}

-- A message that was sent: the header is one that the platform lays out and tells the body's size,
-- which a uint32_t holds.
pub record IsSendable {T : Type 0} (platform : Platform T) (m : Message T) : Type 0 where
  pub in_range : platform.header.IsValue m.header
  pub told : m.header.size ≡ length m.body
  pub fits : length m.body < 2 ^ 32

-- The temporary message keeps its body when a message comes with none.
abbrev pub arrived_body : List ℕ → List ℕ → List ℕ
arrived_body old [] = old
arrived_body old (b ∷ body) = b ∷ body

abbrev pub arrived : {T : Type 0} → List ℕ → Message T → Message T
arrived old m = record m { body = arrived_body old m.body }

-- A header, and a body if there is one.
abbrev pub reads_of : List ℕ → ℕ
reads_of [] = 1
reads_of (b ∷ body) = 2

abbrev pub owned_by : {T : Type 0} → Owner → ℕ → Message T → OwnedMessage T
owned_by server this m = record { remote = some this; msg = m }
owned_by client this m = record { remote = none; msg = m }

-- An owned message names the connection on a server, and nobody on a client.
abbrev pub owned : {T : Type 0} → ℕ → Connection T → Message T → OwnedMessage T
owned this c m = owned_by c.owner_type this m

module _ {T : Type 0} (platform : Platform T) (this : ℕ) where
  -- A read that finds its bytes completes with them.
  finish :
      (s : Incoming T) (handler : Handler) (xs ys : List ℕ) (c : Connection T)
      (actions : List (Action T))
      → s.waiting ≡ some (handler, length xs)
      → s.stream ≡ xs ++ ys
      → on_read platform this handler s.conn (some xs) ≡ (c, actions)
      → receive_step platform this s
        ≡ perform platform this (record s { conn = c; waiting = none; stream = ys }) actions
  unfolding receive_step
  finish s handler xs ys c actions p q e =
      let enough : ltb (length s.stream) (length xs) ≡ false =
        ltb-false (length s.stream) (length xs) (omega (arith, ap length q, length-append xs ys)) in
      let read_bytes : take (length xs) s.stream ≡ xs =
        ap (take (length xs)) q ∙ take-append xs ys in
      let left_bytes : drop (length xs) s.stream ≡ ys =
        ap (drop (length xs)) q ∙ drop-append xs ys in
      rw (p, enough, read_bytes, left_bytes, e)

  abbrev pub with_temporary : Connection T → Message T → Connection T
  with_temporary c m = record c { msg_temporary_in = m }

  -- The incoming message, and the read of the next header.
  announce : Connection T → Message T → List (Action T)
  announce c m = enqueue (owned this c m) ∷ read header_read platform.header.size ∷ []

  add_to_incoming_lem :
      (c : Connection T)
      → add_to_incoming_message_queue platform this c ≡ announce c c.msg_temporary_in
  unfolding add_to_incoming_message_queue announce
  add_to_incoming_lem c = ground arith

  header_alone :
      (c : Connection T) (bytes : List ℕ) (h : MessageHeader T)
      → platform.header.of_bytes bytes ≡ h
      → h.size ≡ 0
      → let m : Message T = record { header = h; body = c.msg_temporary_in.body } in
        on_header_read platform this c (some bytes) ≡ (with_temporary c m, announce c m)
  unfolding on_header_read announce
  header_alone c bytes h e z = ground arith

  header_then_body :
      (c : Connection T) (bytes : List ℕ) (h : MessageHeader T)
      → platform.header.of_bytes bytes ≡ h
      → 0 < h.size
      → on_header_read platform this c (some bytes) ≡ (
        with_temporary c (record { header = h; body = resize c.msg_temporary_in.body h.size }),
        read body_read h.size ∷ [],
      )
  unfolding on_header_read
  header_then_body c bytes h e z = ground (arith, length-resize c.msg_temporary_in.body h.size)

  body_complete :
      (c : Connection T) (bytes : List ℕ)
      → let m : Message T = record { header = c.msg_temporary_in.header; body = bytes } in
        on_body_read platform this c (some bytes) ≡ (with_temporary c m, announce c m)
  unfolding on_body_read announce
  body_complete c bytes = ground arith

  -- The message at the head of the stream is delivered, and the next header is awaited.
  pub receive-frame :
      (c : Connection T) (m : Message T) (rest : List ℕ) (ms : List (OwnedMessage T))
      → IsSendable platform m
      → let m' : Message T = arrived c.msg_temporary_in.body m in
        receive platform this (reads_of m.body) (listening platform c (frame platform m ++ rest) ms)
        ≡ listening platform (with_temporary c m') rest (ms ++ owned this c m' ∷ [])
  unfolding receive perform on_read announce
  receive-frame c m rest ms v = go m.body refl
    where
      h : MessageHeader T
      h = m.header

      written : platform.header.of_bytes (platform.header.to_bytes h) ≡ h
      written = platform.header.of_bytes-to_bytes h v.in_range

      read_of : Handler → ℕ → Option (Handler × ℕ)
      read_of handler n = some (handler, n)

      bytes : List ℕ
      bytes = platform.header.to_bytes h

      awaited : read_of header_read platform.header.size ≡ read_of header_read (length bytes)
      awaited = ap (read_of header_read) (sym (platform.header.length-to_bytes h))

      first : Incoming T
      first = listening platform c (frame platform m ++ rest) ms

      second : Incoming T
      second = record first {
        conn =
            with_temporary c (record { header = h; body = resize c.msg_temporary_in.body h.size });
        waiting = some (body_read, h.size);
        stream = m.body ++ rest;
      }

      announced : List ℕ → Incoming T
      announced l =
          let m' : Message T = record m { body = l } in
          listening platform (with_temporary c m') rest (ms ++ owned this c m' ∷ [])

      go :
          (body : List ℕ)
          → m.body ≡ body
          → receive platform this
              (reads_of body)
              (listening platform c (frame platform m ++ rest) ms)
            ≡ announced (arrived_body c.msg_temporary_in.body body)
      go [] e =
          let no_body : frame platform m ++ rest ≡ bytes ++ rest =
            ap (λ l. (bytes ++ l) ++ rest) e ∙ ap (λ l. l ++ rest) (append-nil bytes) in
          finish first header_read bytes rest _ _ awaited no_body
            (header_alone c bytes h written (v.told ∙ ap length e))
      go (b ∷ body) e =
          let one : receive_step platform this first ≡ second =
            finish first header_read bytes (m.body ++ rest) _ _ awaited
              (append_assoc bytes m.body rest)
              (header_then_body c bytes h written (omega (arith, v.told, ap length e))) in
          let two =
            finish second body_read m.body rest _ _ (ap (read_of body_read) v.told) refl
              (body_complete second.conn m.body) in
          ap (receive_step platform this) one ∙ two ∙ ap announced e
