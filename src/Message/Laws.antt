-- ===== src/Message/Laws.antt =====
-- `<<` and `>>` against the view of the body as a stack of object representations.
use networking_projects.Prelude.{
  ℕ, ◌+◌, ◌-◌, ◌%◌, ◌^◌, ◌≤◌, ◌<◌, ◌≡◌, ◌↔◌, refl, sym, ap, subst, ◌∙◌, List, ◌++◌, none, some,
  some-eq, arith, length, length-append, take, drop, take-length, take-append-drop, length-drop,
  some≢none, ltb-false→le, take-append, drop-append, ltb, ltb-false, lt→ltb, ltb→lt, Bool-cases,
  inl, inr,
}
use mathlib.Core.Path.{ap₂}
use networking_projects.Message.{Message, push, pull}
use networking_projects.Message.Bytes.{resize, copy_to, copy_to-resize, resize-eq-take}
use networking_projects.Message.Layout.{Pod}

-- The header tells the length of the body, as a uint32_t.
abbrev pub IsSized : {T : Type 0} → Message T → Type 0
IsSized msg = msg.header.size ≡ length msg.body % 2 ^ 32

-- A message with this identifier and body, and the size that goes with it.
abbrev pub sized : {T : Type 0} → T → List ℕ → Message T
sized id body = record { header = record { id = id; size = length body % 2 ^ 32 }; body = body }

pub IsSized→sized : {T : Type 0} (m : Message T) → IsSized m → m ≡ sized m.header.id m.body
IsSized→sized m h = ground arith

module _ {T A : Type 0} (pod : Pod A) where
  pub push_lem :
      (m : Message T) (a : A) → push pod m a ≡ sized m.header.id (m.body ++ pod.to_bytes a)
  unfolding push
  push_lem m a = ap (sized m.header.id) (
      ap (λ n. copy_to (resize m.body (length m.body + n)) (length m.body) (pod.to_bytes a))
        (sym (pod.length-to_bytes a))
      ∙ copy_to-resize m.body (pod.to_bytes a))

  pub pull_short : (m : Message T) → length m.body < pod.size → pull pod m ≡ none
  unfolding pull
  pull_short m h = rw (lt→ltb _ _ h)

  pub pull_lem :
      (m : Message T)
      → pod.size ≤ length m.body
      → pull pod m
        ≡ some (
          sized m.header.id (take (length m.body - pod.size) m.body),
          pod.of_bytes (take pod.size (drop (length m.body - pod.size) m.body)),
        )
  unfolding pull
  pull_lem m h =
      rw (ltb-false _ _ h, resize-eq-take m.body (length m.body - pod.size) (omega arith))

  -- The value's bytes at the end of the body are what a pull reads and takes off.
  pub pull_append :
      (m : Message T) (xs bytes : List ℕ)
      → m.body ≡ xs ++ bytes
      → length bytes ≡ pod.size
      → pull pod m ≡ some (sized m.header.id xs, pod.of_bytes bytes)
  pull_append m xs bytes e len =
      pull_lem m fits ∙ ap₂ (λ (b c : List ℕ). some (sized m.header.id b, pod.of_bytes c)) kept read
    where
      total : length m.body ≡ length xs + pod.size
      total = omega (arith, ap length e, length-append xs bytes, len)

      fits : pod.size ≤ length m.body
      fits = omega (arith, total)

      offset : length m.body - pod.size ≡ length xs
      offset = omega (arith, total)

      kept : take (length m.body - pod.size) m.body ≡ xs
      kept = ap₂ take offset e ∙ take-append xs bytes

      read : take pod.size (drop (length m.body - pod.size) m.body) ≡ bytes
      read =
          ap₂ (λ (n : ℕ) (b : List ℕ). take pod.size (drop n b)) offset e
          ∙ ap (take pod.size) (drop-append xs bytes)
          ∙ ap (λ (n : ℕ). take n bytes) (sym len)
          ∙ take-length bytes

  -- A pushed value is what the next pull gives, and the pull restores the message, body and size.
  pub pull-push :
      (m : Message T) (a : A) → IsSized m → pod.IsValue a → pull pod (push pod m a) ≡ some (m, a)
  pull-push m a sz v =
      ap (pull pod) (push_lem m a)
      ∙ pull_append (sized m.header.id (m.body ++ pod.to_bytes a)) m.body (pod.to_bytes a) refl
          (pod.length-to_bytes a)
      ∙ ap₂ (λ (n : Message T) (b : A). some (n, b)) (sym (IsSized→sized m sz))
          (pod.of_bytes-to_bytes a v)

  -- A pull is undefined exactly where the body is shorter than the value.
  pub pull-none_iff : (m : Message T) → (pull pod m ≡ none) ↔ (length m.body < pod.size)
  pull-none_iff m = (
    λ e. elim (Bool-cases (ltb (length m.body) pod.size)) [
      | inl short ↦ ltb→lt _ _ short
      | inr enough ↦ absurd (some≢none (sym (pull_lem m (ltb-false→le _ _ enough)) ∙ e))
    ],
    pull_short m,
  )

  -- A pull that is defined keeps the identifier, takes exactly the value's bytes off the end of the
  -- body, and leaves a message whose header tells its size.
  pub pull-IsSized :
      (m m' : Message T) (a : A)
      → pull pod m ≡ some (m', a)
      → IsSized m'
        × (m'.header.id ≡ m.header.id)
        × ((bytes : List ℕ) × (m.body ≡ m'.body ++ bytes)
            × (length bytes ≡ pod.size)
            × (a ≡ pod.of_bytes bytes))
  pull-IsSized m m' a e = elim (Bool-cases (ltb (length m.body) pod.size)) [
    | inl short ↦ absurd (some≢none (sym e ∙ pull_short m (ltb→lt _ _ short)))
    | inr enough ↦ parts (ltb-false→le _ _ enough)
  ]
    where
      n : ℕ
      n = length m.body - pod.size

      parts :
          pod.size ≤ length m.body
          → IsSized m'
            × (m'.header.id ≡ m.header.id)
            × ((bytes : List ℕ) × (m.body ≡ m'.body ++ bytes)
                × (length bytes ≡ pod.size)
                × (a ≡ pod.of_bytes bytes))
      parts fits =
          let both = some-eq (sym e ∙ pull_lem m fits) in
          let p = ap (λ (t : Message T × A). t.0) both in
          let len : length (drop n m.body) ≡ pod.size = omega (arith, length-drop n m.body) in
          (
            subst IsSized (sym p) refl,
            ap (λ (t : Message T). t.header.id) p,
            (
              drop n m.body,
              sym (take-append-drop n m.body)
                  ∙ ap (λ (t : Message T). t.body ++ drop n m.body) (sym p),
              len,
              ap (λ (t : Message T × A). t.1) both
                  ∙ ap pod.of_bytes (
                      ap (λ (k : ℕ). take k (drop n m.body)) (sym len)
                      ∙ take-length (drop n m.body)),
            ),
          )
