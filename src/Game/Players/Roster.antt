-- ===== src/Game/Players/Roster.antt =====
-- The server's roster: every player under its own identifier, once. A client that is told of all of
-- them holds the same players.
use networking_projects.Prelude.{
  ℕ, ◌≡◌, refl, ap, subst, ◌∙◌, true, false, List, [], ◌∷◌, map, Option, none, some, ◌==◌, ==_iff,
  Bool-cases, inl, inr, arith, All,
}
use networking_projects.Game.Common.{PlayerDescription}
use networking_projects.Game.GameServer.{find, insert_or_assign, erase}
use networking_projects.Game.GameServer.Maps.{
  find-insert_or_assign_other, find-insert_or_assign_if, find-erase-none,
}
use networking_projects.Game.GameClient.Joining.{enter_all}

apart : (j k : ℕ) → (j == k) ≡ false → (k == j) ≡ false
apart j k h = ground (arith, h)

module _ {F : Type 0} where
  abbrev pub IsRoster : List (ℕ × PlayerDescription F) → Type 0
  IsRoster [] = Unit {0}
  IsRoster ((k, d) ∷ l) = (d.unique_id ≡ k) × (find k l ≡ none) × IsRoster l

  -- The players in the order of the roster.
  abbrev pub players_of : List (ℕ × PlayerDescription F) → List (PlayerDescription F)
  players_of = map (λ (k, d). d)

  pub insert_or_assign-IsRoster :
      (k : ℕ) (d : PlayerDescription F) (l : List (ℕ × PlayerDescription F))
      → d.unique_id ≡ k
      → IsRoster l
      → IsRoster (insert_or_assign k d l)
  unfolding insert_or_assign find
  insert_or_assign-IsRoster k d [] e h = (e, refl, tt)
  insert_or_assign-IsRoster k d ((j, c) ∷ l) e h = elim (Bool-cases (j == k)) [
    | inl same ↦ rw same (e, subst (λ i. find i l ≡ none) ((==_iff j k).0 same) h.1, h.2)
    | inr other ↦ rw other (
      h.0,
      find-insert_or_assign_other k j d l (apart j k other) ∙ h.1,
      insert_or_assign-IsRoster k d l e h.2,
    )
  ]

  pub erase-IsRoster :
      (k : ℕ) (l : List (ℕ × PlayerDescription F)) → IsRoster l → IsRoster (erase k l)
  unfolding erase
  erase-IsRoster k [] h = h
  erase-IsRoster k ((j, c) ∷ l) h = elim (Bool-cases (j == k)) [
    | inl same ↦ rw same (erase-IsRoster k l h.2)
    | inr other ↦ rw other (h.0, find-erase-none k j l h.1, erase-IsRoster k l h.2)
  ]

  -- What holds of a roster's players and of one more holds of all when that one is put in.
  pub All-insert_or_assign :
      (P : PlayerDescription F → Type 0) (k : ℕ) (d : PlayerDescription F)
      (l : List (ℕ × PlayerDescription F))
      → P d
      → All P (players_of l)
      → All P (players_of (insert_or_assign k d l))
  unfolding insert_or_assign
  All-insert_or_assign P k d [] p h = (p, h)
  All-insert_or_assign P k d ((j, c) ∷ l) p h = elim (Bool-cases (j == k)) [
    | inl same ↦ rw same (p, h.1)
    | inr other ↦ rw other (h.0, All-insert_or_assign P k d l p h.1)
  ]

  -- The first of two look-ups that finds something.
  abbrev pub or_else :
      Option (PlayerDescription F) → Option (PlayerDescription F) → Option (PlayerDescription F)
  or_else none o = o
  or_else (some d) o = some d

  -- A client that is told of every player of a roster holds each of them, and of the others what it held.
  pub find-enter_all :
      (l o : List (ℕ × PlayerDescription F)) (k : ℕ)
      → IsRoster l
      → find k (enter_all (players_of l) o) ≡ or_else (find k l) (find k o)
  unfolding find
  find-enter_all [] o k h = refl
  find-enter_all ((j, d) ∷ l) o k h =
      find-enter_all l (insert_or_assign d.unique_id d o) k h.2
      ∙ ap (or_else (find k l)) (find-insert_or_assign_if d.unique_id k d o)
      ∙ elim (Bool-cases (j == k)) [
        | inl same ↦
            let met : (d.unique_id == k) ≡ true = ap (λ i. i == k) h.0 ∙ same in
            let once : find k l ≡ none = subst (λ i. find i l ≡ none) ((==_iff j k).0 same) h.1 in
            rw (met, same, once) refl
        | inr other ↦
            let missed : (d.unique_id == k) ≡ false = ap (λ i. i == k) h.0 ∙ other in
            rw (missed, other) refl
      ]
