-- ===== src/Queue.antt =====
-- MMO_Game/include/olcPGEX_Network/thread_safe_queue.h: each call as one step under the mutex. The
-- waiting of `Pop` and the condition variable are in the child `Waiting`.
pub mod Waiting
mod Tests
use networking_projects.Prelude.{
  ℕ, Bool, true, false, List, [], ◌∷◌, ◌++◌, Option, none, some, length,
}

-- `queue_`, the front first.
pub record Queue (A : Type 0) : Type 0 where
  pub items : List A

module _ {A : Type 0} where
  abbrev pub no_items : Queue A
  no_items = record { items = [] }

  -- `front()` of an empty deque is undefined.
  first : List A → Option A
  first [] = none
  first (a ∷ rest) = some a

  unfoldable pub front : Queue A → Option A
  unfolding first
  front q = first q.items

  take_first : List A → Option (A × Queue A)
  take_first [] = none
  take_first (a ∷ rest) = some (a, record { items = rest })

  -- `none` is the caller's wait: nothing can be taken while the queue is empty.
  unfoldable pub pop : Queue A → Option (A × Queue A)
  unfolding take_first
  pop q = take_first q.items

  unfoldable pub push : Queue A → A → Queue A
  push q a = record { items = q.items ++ a ∷ [] }

  no_more : List A → Bool
  no_more [] = true
  no_more (a ∷ rest) = false

  unfoldable pub is_empty : Queue A → Bool
  unfolding no_more
  is_empty q = no_more q.items

  unfoldable pub count : Queue A → ℕ
  count q = length q.items

  unfoldable pub clear : Queue A → Queue A
  clear q = no_items

  unfoldable pub destroy : Queue A → Queue A
  unfolding clear
  destroy q = clear q
