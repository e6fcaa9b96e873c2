-- ===== src/Game/GameServer/Maps.antt =====
-- What an unordered_map holds after an assignment or an erasure.
use networking_projects.Prelude.{
  ℕ, ◌≡◌, refl, sym, subst, none, ap, ◌∙◌, false, List, [], ◌∷◌, some, ◌==◌, ==_iff, ==_refl,
  Bool-cases, inl, inr, if◌then◌else◌, arith,
}
use networking_projects.Game.GameServer.{find, insert_or_assign, erase}

pub find-insert_or_assign :
    {V : Type 0} (k : ℕ) (v : V) (l : List (ℕ × V)) → find k (insert_or_assign k v l) ≡ some v
unfolding find insert_or_assign
find-insert_or_assign k v [] = rw (==_refl k) refl
find-insert_or_assign k v ((j, w) ∷ l) = elim (Bool-cases (j == k)) [
  | inl same ↦ rw (same, ==_refl k) refl
  | inr other ↦ rw (other, other) (find-insert_or_assign k v l)
]

pub find-insert_or_assign_other :
    {V : Type 0} (k j : ℕ) (v : V) (l : List (ℕ × V))
    → (k == j) ≡ false
    → find j (insert_or_assign k v l) ≡ find j l
unfolding find insert_or_assign
find-insert_or_assign_other k j v [] h = rw h refl
find-insert_or_assign_other k j v ((i, w) ∷ l) h = elim (Bool-cases (i == k)) [
  | inl same ↦
      let apart : (i == j) ≡ false = ap (λ x. x == j) ((==_iff i k).0 same) ∙ h in
      rw (same, apart, h) refl
  | inr other ↦
      rw other (ap (λ o. if i == j then some w else o) (find-insert_or_assign_other k j v l h))
]

-- A look-up after an assignment, and after an erasure.
pub find-insert_or_assign_if :
    {V : Type 0} (k j : ℕ) (v : V) (l : List (ℕ × V))
    → find j (insert_or_assign k v l) ≡ (if k == j then some v else find j l)
find-insert_or_assign_if k j v l = elim (Bool-cases (k == j)) [
  | inl same ↦
      subst (λ i. find i (insert_or_assign k v l) ≡ some v) ((==_iff k j).0 same)
        (find-insert_or_assign k v l)
      ∙ ap (λ b. if b then some v else find j l) (sym same)
  | inr other ↦
      find-insert_or_assign_other k j v l other
      ∙ ap (λ b. if b then some v else find j l) (sym other)
]

pub find-erase_if :
    {V : Type 0} (k j : ℕ) (l : List (ℕ × V))
    → find j (erase k l) ≡ (if k == j then none else find j l)
unfolding find erase
find-erase_if k j [] = ground arith
find-erase_if k j ((i, w) ∷ l) = ground (arith, find-erase_if k j l)

-- What is erased is gone, and an erasure brings nothing back.
pub find-erase_same : {V : Type 0} (k : ℕ) (l : List (ℕ × V)) → find k (erase k l) ≡ none
find-erase_same k l = rw (find-erase_if k k l, ==_refl k) refl

pub find-erase-none :
    {V : Type 0} (k j : ℕ) (l : List (ℕ × V)) → find j l ≡ none → find j (erase k l) ≡ none
find-erase-none k j l h = find-erase_if k j l ∙ ground (arith, h)
