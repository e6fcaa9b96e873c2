-- ===== src/Connection/Read/Stream.antt =====
-- Any sequence of frames through the receiving half.
use networking_projects.Prelude.{
  ℕ, zero, suc, ◌+◌, ◌<◌, ◌≡◌, refl, sym, ap, ◌∙◌, List, [], ◌∷◌, ◌++◌, append_assoc, append-nil,
  map, All, arith, length,
}
use networking_projects.Message.{Message}
use networking_projects.Connection.Types.{Connection, Platform, OwnedMessage}
use networking_projects.Connection.Write.{frame, frames}
use networking_projects.Connection.Read.{Incoming, receive, receive_step, listening}
use networking_projects.Connection.Read.Frame.{
  IsSendable, arrived, arrived_body, reads_of, owned, with_temporary, receive-frame,
}

-- What comes out: a message with no body takes the body of the last message before it that had one.
abbrev pub arrivals : {T : Type 0} → List ℕ → List (Message T) → List (Message T)
arrivals old [] = []
arrivals old (m ∷ ms) = arrived old m ∷ arrivals (arrived_body old m.body) ms

abbrev pub reads : {T : Type 0} → List (Message T) → ℕ
reads [] = 0
reads (m ∷ ms) = reads_of m.body + reads ms

-- The temporary message in the end.
abbrev pub last_temporary : {T : Type 0} → Message T → List (Message T) → Message T
last_temporary t [] = t
last_temporary t (m ∷ ms) = last_temporary (arrived t.body m) ms

abbrev pub HasBody : {T : Type 0} → Message T → Type 0
HasBody m = 0 < length m.body

pub arrived_body-eq : (old body : List ℕ) → 0 < length body → arrived_body old body ≡ body
arrived_body-eq old [] h = absurd (omega arith)
arrived_body-eq old (b ∷ body) h = refl

-- Messages with bodies arrive as they were.
pub arrivals-eq :
    {T : Type 0} (old : List ℕ) (ms : List (Message T)) → All HasBody ms → arrivals old ms ≡ ms
arrivals-eq old [] h = refl
arrivals-eq old (m ∷ ms) h =
    ap (λ (b : List ℕ). record m { body = b } ∷ arrivals b ms) (arrived_body-eq old m.body h.0)
    ∙ ap (◌∷◌ m) (arrivals-eq m.body ms h.1)

module _ {T : Type 0} (platform : Platform T) (this : ℕ) where
  receive-add :
      (a b : ℕ) (s : Incoming T)
      → receive platform this (a + b) s ≡ receive platform this b (receive platform this a s)
  unfolding receive
  receive-add zero b s = let e : 0 + b ≡ b = omega arith in ap (λ n. receive platform this n s) e
  receive-add (suc a) b s =
      ap (λ n. receive platform this n s) (let e : suc a + b ≡ suc (a + b) = omega arith in e)
      ∙ receive-add a b (receive_step platform this s)

  pub receive-frames :
      (ms : List (Message T)) (c : Connection T) (rest : List ℕ) (before : List (OwnedMessage T))
      → All (IsSendable platform) ms
      → receive platform this (reads ms) (listening platform c (frames platform ms ++ rest) before)
        ≡ listening platform
            (with_temporary platform this c (last_temporary c.msg_temporary_in ms))
            rest
            (before ++ map (owned this c) (arrivals c.msg_temporary_in.body ms))
  unfolding receive
  receive-frames [] c rest before h = ap (listening platform c rest) (sym (append-nil before))
  receive-frames (m ∷ ms) c rest before h =
      ap (λ l. receive platform this (reads_of m.body + reads ms) (listening platform c l before))
        (append_assoc (frame platform m) (frames platform ms) rest)
      ∙ receive-add (reads_of m.body) (reads ms) _
      ∙ ap (receive platform this (reads ms))
          (receive-frame platform this c m (frames platform ms ++ rest) before h.0)
      ∙ receive-frames ms _ rest _ h.1
      ∙ ap (listening platform _ rest) (append_assoc before _ _)
