-- ===== src/Connection/Sample.antt =====
-- A platform for the tests: identifiers laid out as given, sizes of four bytes and words of eight.
use networking_projects.Prelude.{ℕ}
use networking_projects.Message.{MessageHeader}
use networking_projects.Message.Layout.{Pod}
use networking_projects.Message.LittleEndian.{unsigned, pair, laid_out}
use networking_projects.Connection.Types.{Platform}

module _ {T : Type 0} (id : Pod T) (zero_id : T) where
  abbrev pub members : MessageHeader T → T × ℕ
  members h = (h.id, h.size)

  abbrev pub make : T × ℕ → MessageHeader T
  make (t, n) = record { id = t; size = n }

  abbrev pub sample : Platform T
  sample = record {
    header = laid_out (pair id (unsigned 4)) members make;
    word = unsigned 8;
    zero_id = zero_id;
    word_range = λ n h. h;
  }
