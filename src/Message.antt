-- ===== src/Message.antt =====
-- MMO_Game/include/olcPGEX_Network/message.h: the header, the body as a stack of bytes, and the two
-- operators that push a value on it and pull one off. Bytes and sizes are numbers; a uint32_t is
-- cut to 32 bits where it is stored.
pub mod Bytes
pub mod Layout
pub mod LittleEndian
pub mod Laws
pub mod Stack
mod Tests
use networking_projects.Prelude.{
  codes, to_string, ◌++◌, ℕ, ◌+◌, ◌-◌, ◌%◌, ◌^◌, List, [], Option, none, some, ltb, if◌then◌else◌,
  length, take, drop,
}
use Bytes.{resize, copy_to}
use Layout.{Pod}

-- `T` is the program's enumeration of message types.
pub record MessageHeader (T : Type 0) : Type 0 where
  pub id : T
  pub size : ℕ

pub record Message (T : Type 0) : Type 0 where
  pub header : MessageHeader T
  pub body : List ℕ

-- A message declared with no initialiser: `id` is the enumeration's zero.
unfoldable pub empty : {T : Type 0} → T → Message T
empty id = record { header = record { id = id; size = 0 }; body = [] }

-- `size()`: bytes of the body.
abbrev pub size : {T : Type 0} → Message T → ℕ
size msg = length msg.body

-- `msg.header.size = msg.size()`, a size_t put in a uint32_t.
unfoldable pub recalculate : {T : Type 0} → Message T → Message T
recalculate msg = record msg { header = record { id = msg.header.id; size = size msg % 2 ^ 32 } }

-- `os << msg`, with the number of the message's type.
unfoldable pub printed : {T : Type 0} → (T → ℕ) → Message T → List ℕ
printed code msg =
    codes "ID:" ++ (to_string (code msg.header.id) ++ (codes " Size:" ++ to_string msg.header.size))

module _ {T A : Type 0} (pod : Pod A) where
  -- `msg << data`.
  unfoldable pub push : Message T → A → Message T
  unfolding recalculate
  push msg a =
      let i = size msg in
      let room = resize msg.body (size msg + pod.size) in
      recalculate (record msg { body = copy_to room i (pod.to_bytes a) })

  -- `msg >> data`. With a body shorter than the value the subtraction wraps round and the copy reads
  -- outside the vector, which is undefined: `none`.
  unfoldable pub pull : Message T → Option (Message T × A)
  unfolding recalculate
  pull msg =
      let i = size msg - pod.size in
      if ltb (size msg) pod.size
      then none
      else some (
        recalculate (record msg { body = resize msg.body i }),
        pod.of_bytes (take pod.size (drop i msg.body)),
      )
