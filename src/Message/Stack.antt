-- ===== src/Message/Stack.antt =====
-- Several values: what is pushed last is pulled first.
use mathlib.Core.List.{reverse, reverse-cons}
use networking_projects.Prelude.{
  ℕ, zero, suc, ◌≡◌, refl, sym, ap, subst, ◌+◌, arith, ◌∙◌, List, [], ◌∷◌, ◌++◌, append-nil,
  append_assoc, All, Option, none, some, length,
}
use networking_projects.Message.{Message, push, pull}
use networking_projects.Message.Layout.{Pod}
use networking_projects.Message.Laws.{IsSized, pull-push, push_lem}

-- Values in front of those that were pulled.
abbrev after : {S A : Type 0} → List A → Option (S × List A) → Option (S × List A)
after xs none = none
after xs (some (s, ys)) = some (s, xs ++ ys)

after-after :
    {S A : Type 0} (xs ys : List A) (o : Option (S × List A))
    → after xs (after ys o) ≡ after (xs ++ ys) o
after-after xs ys none = refl
after-after xs ys (some (s, zs)) = ap (λ l. some (s, l)) (sym (append_assoc xs ys zs))

module _ {T A : Type 0} (pod : Pod A) where
  -- `msg << a << b << …`
  abbrev pub push_all : Message T → List A → Message T
  push_all m [] = m
  push_all m (a ∷ rest) = push_all (push pod m a) rest

  -- `msg >> …` so many times; the values in the order of the pulls.
  abbrev pub pull_all : ℕ → Message T → Option (Message T × List A)
  pull_all zero m = some (m, [])
  pull_all (suc n) m = elim (pull pod m) [
    | none ↦ none
    | some (m', a) ↦ after (a ∷ []) (pull_all n m')
  ]

  -- A push leaves a message whose header tells its size, whatever the header said before.
  pub push-IsSized : (m : Message T) (a : A) → IsSized (push pod m a)
  push-IsSized m a = subst IsSized (sym (push_lem pod m a)) refl

  pull_all-push :
      (k : ℕ) (m : Message T) (a : A)
      → IsSized m
      → pod.IsValue a
      → pull_all (suc k) (push pod m a) ≡ after (a ∷ []) (pull_all k m)
  pull_all-push k m a sz v = rw (pull-push pod m a sz v, pull_all)

  pull_all-push_all :
      (l : List A) (k : ℕ) (m : Message T)
      → IsSized m
      → All pod.IsValue l
      → pull_all (length l + k) (push_all m l) ≡ after (reverse l) (pull_all k m)
  pull_all-push_all [] k m sz v =
      let e : 0 + k ≡ k = omega arith in
      ap (λ n. pull_all n m) e ∙ sym (after_nothing (pull_all k m))
    where
      after_nothing : (o : Option (Message T × List A)) → after [] o ≡ o
      after_nothing none = refl
      after_nothing (some (m', ys)) = refl
  pull_all-push_all (a ∷ l) k m sz v =
      let e : suc (length l) + k ≡ length l + suc k = omega arith in
      ap (λ n. pull_all n (push_all (push pod m a) l)) e
      ∙ pull_all-push_all l (suc k) (push pod m a) (push-IsSized m a) v.1
      ∙ ap (after (reverse l)) (pull_all-push k m a sz v.0)
      ∙ after-after (reverse l) (a ∷ []) (pull_all k m)
      ∙ ap (λ r. after r (pull_all k m)) (sym (reverse-cons a l))

  -- Pulled back one after another, the values pushed come out in the opposite order, and the
  -- message is then as it was before the first of them, body and size.
  pub pull_all-reverse :
      (m : Message T) (l : List A)
      → IsSized m
      → All pod.IsValue l
      → pull_all (length l) (push_all m l) ≡ some (m, reverse l)
  pull_all-reverse m l sz v =
      let e : length l ≡ length l + 0 = omega arith in
      ap (λ n. pull_all n (push_all m l)) e
      ∙ pull_all-push_all l 0 m sz v
      ∙ ap (λ r. some (m, r)) (append-nil (reverse l))
