-- ===== src/Connection/Read.antt =====
-- The receiving half of connection.h driven by asio over the bytes of one socket: a read completes
-- when as many bytes are there as it asked for, and waits until then.
pub mod Frame
pub mod Stream
use networking_projects.Prelude.{
  ℕ, zero, suc, List, [], ◌∷◌, ◌++◌, Option, none, some, ltb, if◌then◌else◌, length, take, drop,
}
use networking_projects.Connection.{on_header_read, on_body_read}
use networking_projects.Connection.Types.{
  Connection, Platform, OwnedMessage, Handler, header_read, body_read, Action, read, enqueue,
}

pub record Incoming (T : Type 0) : Type 0 where
  pub conn : Connection T
  -- The handler and the number of bytes of the read that asio was given.
  pub waiting : Option (Handler × ℕ)
  -- Bytes that have come and are not yet read.
  pub stream : List ℕ
  -- What was pushed to the incoming queue.
  pub delivered : List (OwnedMessage T)

-- A connection that has just called `ReadHeader`.
abbrev pub listening :
    {T : Type 0} → Platform T → Connection T → List ℕ → List (OwnedMessage T) → Incoming T
listening platform c bytes ms = record {
  conn = c;
  waiting = some (header_read, platform.header.size);
  stream = bytes;
  delivered = ms;
}

module _ {T : Type 0} (platform : Platform T) (this : ℕ) where
  -- What a handler asks for, in order.
  perform : Incoming T → List (Action T) → Incoming T
  perform s [] = s
  perform s (read handler n ∷ rest) = perform (record s { waiting = some (handler, n) }) rest
  perform s (enqueue m ∷ rest) = perform (record s { delivered = s.delivered ++ m ∷ [] }) rest
  perform s (other ∷ rest) = perform s rest

  on_read : Handler → Connection T → Option (List ℕ) → Connection T × List (Action T)
  on_read header_read c bytes = on_header_read platform this c bytes
  on_read body_read c bytes = on_body_read platform this c bytes
  on_read other c bytes = (c, [])

  -- A read of `n` bytes completes.
  complete : Incoming T → Handler → ℕ → Incoming T
  unfolding on_read perform
  complete s handler n =
      let (c, actions) = on_read handler s.conn (some (take n s.stream)) in
      perform (record s { conn = c; waiting = none; stream = drop n s.stream }) actions

  unfoldable pub receive_step : Incoming T → Incoming T
  unfolding complete
  receive_step s = elim s.waiting [
    | none ↦ s
    | some (handler, n) ↦ if ltb (length s.stream) n then s else complete s handler n
  ]

  unfoldable pub receive : ℕ → Incoming T → Incoming T
  receive zero s = s
  receive (suc k) s = receive k (receive_step s)
