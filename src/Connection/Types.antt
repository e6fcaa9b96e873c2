-- ===== src/Connection/Types.antt =====
-- The state of connection.h, an owned message (owned_message.h), and what a connection asks for.
use networking_projects.Prelude.{ℕ, ◌^◌, ◌<◌, Bool, List, Option}
use networking_projects.Queue.{Queue}
use networking_projects.Message.{printed, Message, MessageHeader}
use networking_projects.Message.Layout.{Pod}

-- `Connection::Owner`.
pub data Owner : Type 0 where
  server client : Owner

-- `remote` is null on a client.
pub record OwnedMessage (T : Type 0) : Type 0 where
  pub remote : Option ℕ
  pub msg : Message T

-- `os << msg` of an owned message.
unfoldable pub printed_owned : {T : Type 0} → (T → ℕ) → OwnedMessage T → List ℕ
unfolding printed
printed_owned code owned = printed code owned.msg

-- The compiler's layout of a header and of a uint64_t, and the zero of the enumeration.
pub record Platform (T : Type 0) : Type 1 where
  pub header : Pod (MessageHeader T)
  pub word : Pod ℕ
  pub zero_id : T
  pub word_range : (n : ℕ) → n < 2 ^ 64 → word.IsValue n

-- The handler that asio runs when the work is done.
pub data Handler : Type 0 where
  header_written body_written header_read body_read validation_written validation_read : Handler

pub data Action (T : Type 0) : Type 0 where
  -- `async_write` of these bytes, `async_read` of this many, `async_connect`.
  write : Handler → List ℕ → Action T
  read : Handler → ℕ → Action T
  connect : Action T
  -- Lambdas posted to the context by `Send` and `Disconnect`.
  post_send : Message T → Action T
  post_close : Action T
  -- `m_qMessagesIn.Push`, `server->OnClientValidated`.
  enqueue : OwnedMessage T → Action T
  client_validated : Action T

pub record Connection (T : Type 0) : Type 0 where
  pub socket_open : Bool
  pub messages_out : Queue (Message T)
  pub msg_temporary_in : Message T
  pub owner_type : Owner
  pub handshake_out : ℕ
  pub handshake_in : ℕ
  pub handshake_check : ℕ
  pub valid_handshake : Bool
  pub connection_established : Bool
  pub id : ℕ
