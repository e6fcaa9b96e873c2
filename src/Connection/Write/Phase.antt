-- ===== src/Connection/Write/Phase.antt =====
-- The phases of a write: nothing in flight, a header, a body, or a write that failed; and how many
-- writes are left.
use networking_projects.Prelude.{
  ℕ, ◌≡◌, refl, sym, ap, ◌∙◌, ◌≢◌, ◌⊎◌, ◌-◌, ◌*◌, ◌≤◌, false, List, [], ◌∷◌, ◌++◌, append_assoc,
  append-nil, Option, some, length,
}
use networking_projects.Message.{Message}
use networking_projects.Connection.Types.{
  Connection, Platform, header_written, body_written, Action, write,
}
use networking_projects.Connection.Write.{Outgoing, start, frame, frames}
use networking_projects.Connection.Write.Steps.{header_bytes}

module _ {T : Type 0} (platform : Platform T) where
  abbrev pub items : Outgoing T → List (Message T)
  items s = s.conn.messages_out.items

  -- The messages in `done` have gone out whole; the first in the queue is being written, or its
  -- write has failed and nothing more is written.
  pub data Phase (s : Outgoing T) (done : List (Message T)) : Type 0 where
    idle : items s ≡ [] → s.pending ≡ [] → s.wire ≡ frames platform done → Phase s done
    in_header :
        (m : Message T) (r : List (Message T))
        → items s ≡ m ∷ r
        → s.pending ≡ write header_written (header_bytes platform m) ∷ []
        → s.wire ≡ frames platform done
        → Phase s done
    in_body :
        (m : Message T) (r : List (Message T))
        → items s ≡ m ∷ r
        → s.pending ≡ write body_written m.body ∷ []
        → s.wire ≡ frames platform done ++ header_bytes platform m
        → Phase s done
    stalled :
        (m : Message T) (r : List (Message T)) (out lost : List ℕ)
        → items s ≡ m ∷ r
        → s.pending ≡ []
        → s.conn.socket_open ≡ false
        → frame platform m ≡ out ++ lost
        → s.wire ≡ frames platform done ++ out
        → Phase s done

  pub record Inv (s : Outgoing T) : Type 0 where
    pub done : List (Message T)
    pub phase : Phase s done
    pub accounted : s.sent ≡ done ++ items s

  abbrev pub Keeps : Option (Outgoing T) → Type 0
  Keeps o = (t : Outgoing T) × (o ≡ some t) × Inv t

  -- Writes go on, or there is nothing to write.
  abbrev pub IsLive : Outgoing T → Type 0
  IsLive s = (s.pending ≢ []) ⊎ (items s ≡ [])

  abbrev pub body_begun : List (Action T) → ℕ
  body_begun (write body_written bytes ∷ rest) = 1
  body_begun other = 0

  -- How many writes have to complete before the queue is empty, at most.
  abbrev pub left : Outgoing T → ℕ
  left s = 2 * length (items s) - body_begun s.pending

  -- A completed write leads to such a state, with at most `n` writes left.
  abbrev pub Advances : Outgoing T → ℕ → Option (Outgoing T) → Type 0
  Advances s n o =
      (t : Outgoing T) × (o ≡ some t) × Inv t × IsLive t × (t.sent ≡ s.sent) × (left t ≤ n)

  pub frames-append :
      (ms : List (Message T)) (m : Message T)
      → frames platform (ms ++ m ∷ []) ≡ frames platform ms ++ frame platform m
  frames-append [] m = append-nil (frame platform m)
  frames-append (x ∷ ms) m =
      ap (◌++◌ (frame platform x)) (frames-append ms m)
      ∙ sym (append_assoc (frame platform x) (frames platform ms) (frame platform m))

  pub start-Inv : (c : Connection T) → Inv (start platform c)
  start-Inv c = record { done = []; phase = idle refl refl refl; accounted = refl }
