-- ===== src/Game/Movement/Objects.antt =====
-- What a frame does to the objects, one after the other, and what it leaves as it was.
use mathlib.Core.Path.{ap₂}
use networking_projects.Prelude.{
  ℕ, ◌≡◌, refl, sym, ap, subst, ◌∙◌, ◌⊎◌, inl, inr, Bool, true, false, List, [], ◌∷◌, ◌++◌, map,
  Option, none, some, some≢none, some-eq,
}
use networking_projects.Game.Common.{Point, PlayerDescription}
use networking_projects.Game.Numbers.{Numbers}
use networking_projects.Game.Movement.{
  Area, rows, columns, potential, areas, resolve, hits_wall, update_object, behind,
  update_objects_locally,
}
use networking_projects.Game.Movement.OneObject.{
  Flies, Loses, After, bereft, update_object-Flies, update_object-Loses, update_object-After,
}

module _ {F : Type 0} (numbers : Numbers F) where
  -- Every object of the first list moves on, to the one of the second.
  abbrev pub Move : F → List (ℕ × PlayerDescription F) → List (ℕ × PlayerDescription F) → Type 0
  Move elapsed [] [] = Unit {0}
  Move elapsed ((k, d) ∷ ds) ((k', d') ∷ ds') =
      (k ≡ k') × Flies numbers elapsed d d' × Move elapsed ds ds'
  Move elapsed ds ds' = ⊥

  -- When the first objects move on and their bullets meet no wall, and the bullet of the next one meets a
  -- wall, the function returns: the first objects have moved, that object has moved and its bullet is
  -- gone, whether or not it had been shot, with its place where the object is now, and the objects behind
  -- it are left where they were in this frame.
  pub update_objects_locally-stops :
      (elapsed : F) (front front' rest : List (ℕ × PlayerDescription F)) (k : ℕ)
      (d : PlayerDescription F) (a b : Area) (moved : Point F)
      → Move elapsed front front'
      → areas numbers elapsed d ≡ some (a, b)
      → resolve numbers d.radius (rows a) (columns a) (potential numbers elapsed d) ≡ some moved
      → hits_wall (rows b) (columns b) ≡ some true
      → update_objects_locally numbers elapsed (front ++ (k, d) ∷ rest)
        ≡ some (front' ++ (k, bereft moved d) ∷ rest)
  unfolding update_objects_locally
  update_objects_locally-stops elapsed [] [] rest k d a b moved moves e f g =
      ap (behind numbers k rest (update_objects_locally numbers elapsed rest))
        (update_object-Loses numbers elapsed d a b moved e f g)
  update_objects_locally-stops elapsed [] (x ∷ front') rest k d a b moved moves e f g = absurd moves
  update_objects_locally-stops elapsed (x ∷ front) [] rest k d a b moved moves e f g = absurd moves
  update_objects_locally-stops elapsed ((j, c) ∷ front) ((j', c') ∷ front') rest k d a b moved
        (same, flies, moves) e f g =
      let others = front ++ (k, d) ∷ rest in
      let ih = update_objects_locally-stops elapsed front front' rest k d a b moved moves e f g in
      ap₂ (λ o u. behind numbers j others o u) ih (update_object-Flies numbers elapsed c c' flies)
      ∙ ap (λ i. some ((i, c') ∷ (front' ++ (k, bereft moved d) ∷ rest))) same

  -- What a frame leaves of an object.
  abbrev pub Kept : Type 0
  Kept = ℕ × (ℕ × (F × (Point F × (F × (Point F × F)))))

  abbrev pub kept : PlayerDescription F → Kept
  kept d =
      (d.unique_id, (d.avatar_id, (d.radius, (d.vel, (d.yaw, (d.bullet_vel, d.bullet_radius))))))

  abbrev pub all_kept : List (ℕ × PlayerDescription F) → List (ℕ × Kept)
  all_kept = map (λ (k, d). (k, kept d))

  -- The objects of the second list are those of the first after a frame: one after the other moves on,
  -- up to the first whose bullet meets a wall, and those behind it stay.
  abbrev pub Advance : F → List (ℕ × PlayerDescription F) → List (ℕ × PlayerDescription F) → Type 0
  Advance elapsed [] [] = Unit {0}
  Advance elapsed ((k, d) ∷ ds) ((k', d') ∷ ds') =
      (k' ≡ k)
      × ((Flies numbers elapsed d d' × Advance elapsed ds ds')
          ⊎ (Loses numbers elapsed d d' × (ds' ≡ ds)))
  Advance elapsed ds ds' = ⊥

  Advance-kept :
      (elapsed : F) (ds ds' : List (ℕ × PlayerDescription F))
      → Advance elapsed ds ds'
      → all_kept ds' ≡ all_kept ds
  Advance-kept elapsed [] [] h = refl
  Advance-kept elapsed [] (x ∷ ds') h = absurd h
  Advance-kept elapsed (x ∷ ds) [] h = absurd h
  Advance-kept elapsed ((k, d) ∷ ds) ((k', d') ∷ ds') (key, inl (flies, others)) =
      let (a, b, moved, e, f, g, same) = flies in
      ap₂ ◌∷◌ (ap₂ (λ i (x : PlayerDescription F). (i, kept x)) key same)
        (Advance-kept elapsed ds ds' others)
  Advance-kept elapsed ((k, d) ∷ ds) ((k', d') ∷ ds') (key, inr (loses, others)) =
      let (a, b, moved, e, f, g, same) = loses in
      ap₂ ◌∷◌ (ap₂ (λ i (x : PlayerDescription F). (i, kept x)) key same) (ap all_kept others)

  behind-Advance :
      (elapsed : F) (k : ℕ) (d : PlayerDescription F) (objects : List (ℕ × PlayerDescription F))
      (rest : Option (List (ℕ × PlayerDescription F)))
      (update : Option (PlayerDescription F × Bool)) (objects' : List (ℕ × PlayerDescription F))
      → ((moved : List (ℕ × PlayerDescription F))
          → rest ≡ some moved
          → Advance elapsed objects moved)
      → ((r : PlayerDescription F × Bool) → update ≡ some r → After numbers elapsed d r.0 r.1)
      → behind numbers k objects rest update ≡ some objects'
      → Advance elapsed ((k, d) ∷ objects) objects'
  behind-Advance elapsed k d objects rest none objects' h g e = absurd (some≢none (sym e))
  behind-Advance elapsed k d objects rest (some (d', true)) objects' h g e =
      subst (Advance elapsed ((k, d) ∷ objects)) (some-eq e) (refl, inr (g (d', true) refl, refl))
  behind-Advance elapsed k d objects none (some (d', false)) objects' h g e =
      absurd (some≢none (sym e))
  behind-Advance elapsed k d objects (some moved) (some (d', false)) objects' h g e =
      subst (Advance elapsed ((k, d) ∷ objects)) (some-eq e)
        (refl, inl (g (d', false) refl, h moved refl))

  update_objects_locally-Advance :
      (elapsed : F) (objects objects' : List (ℕ × PlayerDescription F))
      → update_objects_locally numbers elapsed objects ≡ some objects'
      → Advance elapsed objects objects'
  unfolding update_objects_locally
  update_objects_locally-Advance elapsed [] objects' e = subst (Advance elapsed []) (some-eq e) tt
  update_objects_locally-Advance elapsed ((k, d) ∷ objects) objects' e =
      behind-Advance elapsed k d objects (update_objects_locally numbers elapsed objects)
        (update_object numbers elapsed d) objects' (update_objects_locally-Advance elapsed objects)
        (update_object-After numbers elapsed d) e

  -- A frame, when it is defined, leaves the objects in their order, each under its key and with its
  -- identifiers, radii, velocities and yaw. One object after the other moves to where the resolution of
  -- its collisions puts it, with its bullet straight on and its flag as it was if no wall is in the
  -- bullet's area, up to the first whose bullet meets a wall: its flag is false then, its bullet's place
  -- its own new place, and the objects behind it are as they were.
  pub update_objects_locally-kept :
      (elapsed : F) (objects objects' : List (ℕ × PlayerDescription F))
      → update_objects_locally numbers elapsed objects ≡ some objects'
      → (all_kept objects' ≡ all_kept objects) × Advance elapsed objects objects'
  update_objects_locally-kept elapsed objects objects' e =
      let advance = update_objects_locally-Advance elapsed objects objects' e in
      (Advance-kept elapsed objects objects' advance, advance)
