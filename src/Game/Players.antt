-- ===== src/Game/Players.antt =====
-- What a server and its clients agree on: the players under their identifiers, whatever order an
-- unordered_map keeps them in. Two lists that hold the same under each key are one value of a quotient.
pub mod Command
pub mod Roster
pub mod Inbox
pub mod Mirror
pub mod Wire
pub mod View
pub mod Channel
pub mod Session
mod Tests
use mathlib.Core.Quot
use mathlib.Core.Quot.{Quot, Quot-set}
use networking_projects.Prelude.{
  ℕ, ◌≡◌, sym, ap, ◌∙◌, false, List, ◌==◌, if◌then◌else◌, some, none, Option, arith,
}
use networking_projects.Game.GameServer.{find, insert_or_assign, erase}
use networking_projects.Game.GameServer.Maps.{find-insert_or_assign_if, find-erase_if}

abbrev pub IsSame : {V : Type 0} → List (ℕ × V) → List (ℕ × V) → Type 0
IsSame l l' = (k : ℕ) → find k l ≡ find k l'

abbrev pub Players : Type 0 → Type 0
Players V = Quot (IsSame {V = V})

module _ {V : Type 0} where
  abbrev pub players : List (ℕ × V) → Players V
  players l = Quot.mk l

  pub players-eq : (l l' : List (ℕ × V)) → IsSame l l' → players l ≡ players l'
  players-eq l l' h = Quot.sound h

  pub insert_or_assign-IsSame :
      (k : ℕ) (v : V) (l l' : List (ℕ × V))
      → IsSame l l'
      → IsSame (insert_or_assign k v l) (insert_or_assign k v l')
  insert_or_assign-IsSame k v l l' h j =
      find-insert_or_assign_if k j v l
      ∙ ap (λ o. if k == j then some v else o) (h j)
      ∙ sym (find-insert_or_assign_if k j v l')

  pub erase-IsSame : (k : ℕ) (l l' : List (ℕ × V)) → IsSame l l' → IsSame (erase k l) (erase k l')
  erase-IsSame k l l' h j =
      find-erase_if k j l ∙ ap (λ o. if k == j then none else o) (h j) ∙ sym (find-erase_if k j l')

  -- A player comes or changes, and a player goes.
  unfoldable pub put : ℕ → V → Players V → Players V
  put k v =
      Quot.lift Quot-set (λ l. Quot.mk (insert_or_assign k v l))
        (λ l l' h. Quot.sound (insert_or_assign-IsSame k v l l' h))

  unfoldable pub leave : ℕ → Players V → Players V
  leave k =
      Quot.lift Quot-set (λ l. Quot.mk (erase k l)) (λ l l' h. Quot.sound (erase-IsSame k l l' h))

  -- Players with different identifiers may come in any order.
  pub put_comm :
      (k j : ℕ) (v w : V) (m : Players V)
      → (k == j) ≡ false
      → put k v (put j w m) ≡ put j w (put k v m)
  unfolding put
  put_comm k j v w m h =
      Quot.ind (λ m. Quot-set (put k v (put j w m)) (put j w (put k v m)))
        (λ l. Quot.sound (λ i.
          find-insert_or_assign_if k i v (insert_or_assign j w l)
          ∙ ap (λ o. if k == i then some v else o) (find-insert_or_assign_if j i w l)
          ∙ swap i _
          ∙ sym (ap (λ o. if j == i then some w else o) (find-insert_or_assign_if k i v l))
          ∙ sym (find-insert_or_assign_if j i w (insert_or_assign k v l))))
        m
    where
      swap :
          (i : ℕ) (o : Option V)
          → (if k == i then some v else if j == i then some w else o)
            ≡ (if j == i then some w else if k == i then some v else o)
      swap i o = ground arith
