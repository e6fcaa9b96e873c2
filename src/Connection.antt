-- ===== src/Connection.antt =====
-- MMO_Game/include/olcPGEX_Network/connection.h (and owned_message.h): one end of a connection. Every
-- function that hands work to asio returns the new state and, in order, what it asks of asio, of the
-- incoming queue and of the server; every lambda that asio calls back is a function of its own,
-- named after what has completed. `none` is undefined behaviour (`Front` of an empty queue) or a wait
-- that cannot end (`Pop` of an empty queue by the only thread that runs handlers).
pub mod Types
pub mod Sample
pub mod Write
pub mod Read
pub mod Handshake
pub mod Transport
mod Tests
use networking_projects.Prelude.{
  ◌>>=◌, ℕ, Bool, true, false, not, List, [], ◌∷◌, ◌++◌, Option, none, some, ltb, ◌==◌,
  if◌then◌else◌, length,
}
use networking_projects.Queue
use networking_projects.Message.{Message, empty}
use networking_projects.Message.Bytes.{resize}
use networking_projects.Scramble.{scramble}
use Types.*

-- The state, and what a call made in it asks for.
abbrev pub in_state : {S A : Type 0} → S → Option A → Option (S × A)
in_state s none = none
in_state s (some a) = some (s, a)

module _ {T : Type 0} (platform : Platform T) where
  open platform use {header, word, zero_id}

  -- The constructor. `now` is the clock's count, a uint64_t; a client end draws no challenge.
  unfoldable pub new_connection : Owner → Bool → ℕ → Connection T
  new_connection server is_open now = record {
    socket_open = is_open;
    messages_out = Queue.no_items;
    msg_temporary_in = empty zero_id;
    owner_type = server;
    handshake_out = now;
    handshake_in = 0;
    handshake_check = scramble now;
    valid_handshake = false;
    connection_established = false;
    id = 0;
  }
  new_connection client is_open now = record {
    socket_open = is_open;
    messages_out = Queue.no_items;
    msg_temporary_in = empty zero_id;
    owner_type = client;
    handshake_out = 0;
    handshake_in = 0;
    handshake_check = 0;
    valid_handshake = false;
    connection_established = false;
    id = 0;
  }

  unfoldable pub get_id : Connection T → ℕ
  get_id c = c.id

  unfoldable pub is_connected : Connection T → Bool
  is_connected c = c.socket_open

  -- `m_socket.close()`.
  unfoldable pub close : Connection T → Connection T
  close c = record c { socket_open = false }

  unfoldable pub disconnect : Connection T → List (Action T)
  unfolding is_connected
  disconnect c = if is_connected c then post_close ∷ [] else []

  -- Writing.

  unfoldable pub write_header : Connection T → Option (List (Action T))
  write_header c = do
    m ← Queue.front c.messages_out
    some (write header_written (header.to_bytes m.header) ∷ [])

  unfoldable pub write_body : Connection T → Option (List (Action T))
  write_body c = do m ← Queue.front c.messages_out; some (write body_written m.body ∷ [])

  unfoldable pub send : Message T → List (Action T)
  send msg = post_send msg ∷ []

  -- The lambda that `Send` posts.
  unfoldable pub on_send : Connection T → Message T → Option (Connection T × List (Action T))
  unfolding write_header
  on_send c msg =
      let writing = not (Queue.is_empty c.messages_out) in
      let c' = record c { messages_out = Queue.push c.messages_out msg } in
      if writing then some (c', []) else in_state c' (write_header c')

  -- `m_qMessagesOut.Pop()`, then the next header if there is one.
  unfoldable pub write_next : Connection T → Option (Connection T × List (Action T))
  unfolding write_header
  write_next c = do
    (m, rest) ← Queue.pop c.messages_out
    let c' = record c { messages_out = rest }
    if Queue.is_empty rest then some (c', []) else in_state c' (write_header c')

  unfoldable pub on_header_written : Connection T → Bool → Option (Connection T × List (Action T))
  unfolding write_next write_body close
  on_header_written c false = some (close c, [])
  on_header_written c true = do
    m ← Queue.front c.messages_out
    if ltb 0 (length m.body) then in_state c (write_body c) else write_next c

  unfoldable pub on_body_written : Connection T → Bool → Option (Connection T × List (Action T))
  unfolding write_next close
  on_body_written c false = some (close c, [])
  on_body_written c true = write_next c

  -- Reading. A completed read gives its bytes, a failed one `none`.

  unfoldable pub read_header : List (Action T)
  read_header = read header_read header.size ∷ []

  unfoldable pub read_body : Connection T → List (Action T)
  read_body c = read body_read (length c.msg_temporary_in.body) ∷ []

  -- `this` is the connection's own address, for `shared_from_this()`.
  unfoldable pub add_to_incoming_message_queue : ℕ → Connection T → List (Action T)
  unfolding read_header
  add_to_incoming_message_queue this c = elim c.owner_type [
    | server ↦ enqueue (record { remote = some this; msg = c.msg_temporary_in }) ∷ read_header
    | client ↦ enqueue (record { remote = none; msg = c.msg_temporary_in }) ∷ read_header
  ]

  unfoldable pub on_header_read :
      ℕ → Connection T → Option (List ℕ) → Connection T × List (Action T)
  unfolding read_body add_to_incoming_message_queue close
  on_header_read this c none = (close c, [])
  on_header_read this c (some bytes) =
      let h = header.of_bytes bytes in
      let m = c.msg_temporary_in in
      let c' = record c { msg_temporary_in = record m { header = h } } in
      let c'' = record c {
        msg_temporary_in = record { header = h; body = resize m.body h.size };
      } in
      if ltb 0 h.size then (c'', read_body c'') else (c', add_to_incoming_message_queue this c')

  unfoldable pub on_body_read : ℕ → Connection T → Option (List ℕ) → Connection T × List (Action T)
  unfolding add_to_incoming_message_queue close
  on_body_read this c none = (close c, [])
  on_body_read this c (some bytes) =
      let m = c.msg_temporary_in in
      let c' = record c { msg_temporary_in = record m { body = bytes } } in
      (c', add_to_incoming_message_queue this c')

  -- The handshake.

  unfoldable pub write_validation : Connection T → List (Action T)
  write_validation c = write validation_written (word.to_bytes c.handshake_out) ∷ []

  unfoldable pub on_validation_written : Connection T → Bool → Connection T × List (Action T)
  unfolding read_header close
  on_validation_written c false = (close c, [])
  on_validation_written c true = elim c.owner_type [ server ↦ (c, []) | client ↦ (c, read_header) ]

  unfoldable pub read_validation : List (Action T)
  read_validation = read validation_read word.size ∷ []

  unfoldable pub on_validation_read :
      Connection T → Option (List ℕ) → Connection T × List (Action T)
  unfolding write_validation read_header close
  on_validation_read c none = (close c, [])
  on_validation_read c (some bytes) =
      let c' = record c { handshake_in = word.of_bytes bytes } in
      let solved = record c' { handshake_out = scramble (word.of_bytes bytes) } in
      elim c.owner_type [
        | server ↦
            if word.of_bytes bytes == c.handshake_check
            then (c', client_validated ∷ read_header)
            else (close c', [])
        | client ↦ (solved, write_validation solved)
      ]

  unfoldable pub connect_to_client : Connection T → ℕ → Connection T × List (Action T)
  unfolding write_validation read_validation
  connect_to_client c uid =
      let c' = record c { id = uid } in
      elim c.owner_type [
        | server ↦ if c.socket_open then (c', write_validation c' ++ read_validation) else (c, [])
        | client ↦ (c, [])
      ]

  unfoldable pub connect_to_server : Connection T → List (Action T)
  connect_to_server c = elim c.owner_type [ server ↦ [] | client ↦ connect ∷ [] ]

  -- The lambda of `async_connect`; a connect that succeeded has opened the socket.
  unfoldable pub on_connected : Connection T → Bool → Connection T × List (Action T)
  unfolding read_validation
  on_connected c false = (c, [])
  on_connected c true = (record c { socket_open = true }, read_validation)
