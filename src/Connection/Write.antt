-- ===== src/Connection/Write.antt =====
-- The sending half of connection.h driven by asio: the lambdas that `Send` posts, and the writes that
-- complete or fail, in any order that asio may choose. The handshake's own writes come earlier on
-- the socket and are not part of `wire`.
pub mod Steps
pub mod Phase
pub mod Advance
pub mod Invariant
pub mod Drain
use networking_projects.Prelude.{
  ◌>>=◌, ℕ, Bool, true, false, List, [], ◌∷◌, ◌++◌, Option, none, some, take,
}
use networking_projects.Queue
use networking_projects.Message.{Message}
use networking_projects.Connection.{on_send, on_header_written, on_body_written, close}
use networking_projects.Connection.Types.{
  Connection, Platform, Handler, header_written, body_written, Action, write,
}

pub record Outgoing (T : Type 0) : Type 0 where
  pub conn : Connection T
  -- The writes that asio was given and has not finished.
  pub pending : List (Action T)
  -- The bytes that have gone out.
  pub wire : List ℕ
  -- The messages that `Send` was called with, in the order in which asio ran the posted lambdas.
  pub sent : List (Message T)

pub data Event (T : Type 0) : Type 0 where
  sends : Message T → Event T
  completes : Event T
  -- The write fails after this many bytes at most.
  fails : ℕ → Event T
  -- The socket is closed by another handler, of a failed read or of `Disconnect`.
  closes : Event T

module _ {T : Type 0} (platform : Platform T) where
  on_written : Handler → Connection T → Bool → Option (Connection T × List (Action T))
  on_written header_written c ok = on_header_written platform c ok
  on_written body_written c ok = on_body_written platform c ok
  on_written other c ok = none

  pub complete : Outgoing T → List (Action T) → Option (Outgoing T)
  unfolding on_written
  complete s (write handler bytes ∷ rest) = do
    (c, actions) ← on_written handler s.conn true
    some (record s { conn = c; pending = rest ++ actions; wire = s.wire ++ bytes })
  complete s other = some s

  fail : Outgoing T → List (Action T) → ℕ → Option (Outgoing T)
  unfolding on_written
  fail s (write handler bytes ∷ rest) n = do
    (c, actions) ← on_written handler s.conn false
    some (record s { conn = c; pending = rest ++ actions; wire = s.wire ++ take n bytes })
  fail s other n = some s

  -- An event that cannot happen in a state changes nothing.
  unfoldable pub step : Outgoing T → Event T → Option (Outgoing T)
  unfolding complete fail
  step s (sends m) = do
    (c, actions) ← on_send platform s.conn m
    some (record s { conn = c; pending = s.pending ++ actions; sent = s.sent ++ m ∷ [] })
  step s completes = complete s s.pending
  step s (fails n) = fail s s.pending n
  step s closes = some (record s { conn = close platform s.conn })

  unfoldable pub run : Outgoing T → List (Event T) → Option (Outgoing T)
  run s [] = some s
  run s (e ∷ es) = step s e >>= λ t. run t es

  abbrev pub start : Connection T → Outgoing T
  start c = record {
    conn = record c { messages_out = Queue.no_items };
    pending = [];
    wire = [];
    sent = [];
  }

  -- What a message is on the wire, and a sequence of messages.
  abbrev pub frame : Message T → List ℕ
  frame m = platform.header.to_bytes m.header ++ m.body

  abbrev pub frames : List (Message T) → List ℕ
  frames [] = []
  frames (m ∷ ms) = frame m ++ frames ms
