-- ===== src/Connection/Write/Steps.antt =====
-- What each handler of the sending half does, by the messages in the queue.
use networking_projects.Prelude.{ℕ, ◌<◌, ◌≡◌, true, List, [], ◌∷◌, ◌++◌, some, arith, length}
use networking_projects.Queue.{push, pop, front, is_empty}
use networking_projects.Message.{Message}
use networking_projects.Connection.{on_send, on_header_written, write_next}
use networking_projects.Connection.Types.{Connection, Platform, header_written, body_written, write}

module _ {T : Type 0} (platform : Platform T) where
  abbrev pub header_bytes : Message T → List ℕ
  header_bytes m = platform.header.to_bytes m.header

  abbrev pub with_items : Connection T → List (Message T) → Connection T
  with_items c ms = record c { messages_out = record { items = ms } }

  pub on_send_idle :
      (c : Connection T) (m : Message T)
      → c.messages_out.items ≡ []
      → on_send platform c m
        ≡ some (with_items c (m ∷ []), write header_written (header_bytes m) ∷ [])
  unfolding on_send push is_empty front
  on_send_idle c m e = ground arith

  pub on_send_busy :
      (c : Connection T) (m x : Message T) (r : List (Message T))
      → c.messages_out.items ≡ x ∷ r
      → on_send platform c m ≡ some (with_items c (x ∷ (r ++ m ∷ [])), [])
  unfolding on_send push is_empty front
  on_send_busy c m x r e = ground arith

  pub write_next_last :
      (c : Connection T) (m : Message T)
      → c.messages_out.items ≡ m ∷ []
      → write_next platform c ≡ some (with_items c [], [])
  unfolding write_next pop is_empty front
  write_next_last c m e = ground arith

  pub write_next_more :
      (c : Connection T) (m n : Message T) (r : List (Message T))
      → c.messages_out.items ≡ m ∷ n ∷ r
      → write_next platform c
        ≡ some (with_items c (n ∷ r), write header_written (header_bytes n) ∷ [])
  unfolding write_next pop is_empty front
  write_next_more c m n r e = ground arith

  pub on_header_written_body :
      (c : Connection T) (m : Message T) (r : List (Message T))
      → c.messages_out.items ≡ m ∷ r
      → 0 < length m.body
      → on_header_written platform c true ≡ some (c, write body_written m.body ∷ [])
  unfolding on_header_written front
  on_header_written_body c m r e h = ground arith

  pub on_header_written_alone :
      (c : Connection T) (m : Message T) (r : List (Message T))
      → c.messages_out.items ≡ m ∷ r
      → length m.body ≡ 0
      → on_header_written platform c true ≡ write_next platform c
  unfolding on_header_written front
  on_header_written_alone c m r e h = ground arith
