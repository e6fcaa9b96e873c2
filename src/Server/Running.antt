-- ===== src/Server/Running.antt =====
-- A server at work: the handlers of its connections (connection.h), wired to it, the acceptor, and the
-- loop that takes the messages off the queue. The context's thread and the program's own take turns.
pub mod Handlers
pub mod Answers
pub mod Steps
pub mod User
pub mod Identity
use networking_projects.Prelude.{
  true, ◌>>=◌, ℕ, Bool, List, [], ◌∷◌, Option, none, some, get_elem?, set, ◌^◌, ◌-◌,
}
use networking_projects.Message.{Message}
use networking_projects.Connection
use networking_projects.Connection.Types.{Connection, Platform, Action}
use networking_projects.Server.{Server, Hooks, on_accept, perform, update}

-- What asio tells a connection: what has been written, what has been read, unless it failed, or that a
-- lambda that was posted is to run.
pub data Completion (T : Type 0) : Type 0 where
  header_written body_written validation_written : Bool → Completion T
  header_read body_read validation_read : Option (List ℕ) → Completion T
  send_posted : Message T → Completion T
  close_posted : Completion T

pub data Happening (T : Type 0) : Type 0 where
  -- A connection request, at this time, or an error; a socket that asio has accepted is open.
  accepted : Option ℕ → Happening T
  completed : ℕ → Completion T → Happening T

module _ {T : Type 0} (platform : Platform T) where
  -- The handler at the connection with this address.
  unfoldable pub handle : ℕ → Connection T → Completion T → Option (Connection T × List (Action T))
  handle p c (header_written ok) = Connection.on_header_written platform c ok
  handle p c (body_written ok) = Connection.on_body_written platform c ok
  handle p c (validation_written ok) = some (Connection.on_validation_written platform c ok)
  handle p c (header_read bytes) = some (Connection.on_header_read platform p c bytes)
  handle p c (body_read bytes) = some (Connection.on_body_read platform p c bytes)
  handle p c (validation_read bytes) = some (Connection.on_validation_read platform c bytes)
  handle p c (send_posted msg) = Connection.on_send platform c msg
  handle p c close_posted = some (Connection.close platform c, [])

module _ {T S : Type 0} (platform : Platform T) (hooks : Hooks T S) where
  -- What becomes of the server when the handler has changed its connection.
  abbrev pub absorb : ℕ → Server T S → Connection T × List (Action T) → Server T S
  absorb p s (c, actions) = perform platform hooks p (record s { heap = set s.heap p c }) actions

  -- Nothing completes at an address where there is no connection.
  unfoldable pub happen : Server T S → Happening T → Option (Server T S)
  unfolding handle
  happen s (accepted none) = some (on_accept platform hooks s none)
  happen s (accepted (some now)) = some (on_accept platform hooks s (some (true, now)))
  happen s (completed p event) = elim (get_elem? s.heap p) [
    | none ↦ some s
    | some c ↦ handle platform p c event >>= λ r. some (absorb p s r)
  ]

  unfoldable pub happen_all : Server T S → List (Happening T) → Option (Server T S)
  unfolding happen
  happen_all s [] = some s
  happen_all s (h ∷ hs) = happen s h >>= λ t. happen_all t hs

  -- The loop that calls `Update(-1)` again and again, and what happens before each call.
  unfoldable pub serve :
      (Server T S → Option ℕ → Message T → Option (Server T S))
      → Server T S
      → List (List (Happening T))
      → Option (Server T S)
  unfolding happen_all
  serve on_message s [] = some s
  serve on_message s (hs ∷ turns) = happen_all s hs >>= λ t.
      update platform hooks on_message (2 ^ 64 - 1) t >>= λ u. serve on_message u turns
