-- ===== src/Game/Movement/OneObject.antt =====
-- What a frame does to one object, by the walls around it and its bullet.
use networking_projects.Prelude.{
  ◌>>=◌, ℕ, ◌≡◌, refl, sym, ap, subst, bind-inverts, Bool, true, false, List, [], ◌∷◌, some, All,
  some-eq,
}
use networking_projects.Game.Common.{Point, PlayerDescription}
use networking_projects.Game.Numbers.{Numbers}
use networking_projects.Game.World.{is_wall}
use networking_projects.Game.Movement.{
  Area, rows, columns, potential, bullet_potential, areas, resolve_row, resolve, hit_row, hits_wall,
  settle, update_object,
}

-- None of these cells is a wall.
abbrev pub IsFree : List ℕ → List ℕ → Type 0
IsFree ys xs = All (λ y. All (λ x. is_wall x y ≡ some false) xs) ys

hit_row-free :
    (y : ℕ) (xs : List ℕ) → All (λ x. is_wall x y ≡ some false) xs → hit_row y xs ≡ some false
unfolding hit_row
hit_row-free y [] h = refl
hit_row-free y (x ∷ xs) h = rw (h.0, hit_row) (hit_row-free y xs h.1)

hits_wall-free : (ys xs : List ℕ) → IsFree ys xs → hits_wall ys xs ≡ some false
unfolding hits_wall
hits_wall-free [] xs h = refl
hits_wall-free (y ∷ ys) xs h = rw (hit_row-free y xs h.0, hits_wall) (hits_wall-free ys xs h.1)

-- What a bullet that met a wall leaves: it is gone, and its place is where the object is now.
abbrev pub bereft : {F : Type 0} → Point F → PlayerDescription F → PlayerDescription F
bereft moved d = record d {
  pos = moved;
  bullet_was_shot_and_still_exist = false;
  bullet_pos = moved;
}

module _ {F : Type 0} (numbers : Numbers F) where
  open numbers use {add, scale}

  row-free :
      (radius : F) (y : ℕ) (xs : List ℕ) (p : Point F)
      → All (λ x. is_wall x y ≡ some false) xs
      → resolve_row numbers radius y xs p ≡ some p
  unfolding resolve_row
  row-free radius y [] p h = refl
  row-free radius y (x ∷ xs) p h = rw (h.0) (row-free radius y xs p h.1)

  resolve-free :
      (radius : F) (ys xs : List ℕ) (p : Point F)
      → IsFree ys xs
      → resolve numbers radius ys xs p ≡ some p
  unfolding resolve
  resolve-free radius [] xs p h = refl
  resolve-free radius (y ∷ ys) xs p h =
      rw (row-free radius y xs p h.0) (resolve-free radius ys xs p h.1)

  -- Where an object and its bullet go if nothing is in the way.
  abbrev pub onward : F → PlayerDescription F → PlayerDescription F
  onward elapsed d = record d {
    pos = potential numbers elapsed d;
    bullet_pos = bullet_potential numbers elapsed d;
  }

  -- An object that moves on: its collisions are resolved, its bullet meets no wall and flies straight
  -- on, and nothing else of it changes.
  abbrev pub Flies : F → PlayerDescription F → PlayerDescription F → Type 0
  Flies elapsed d d' =
      (a : Area) × (b : Area) × (moved : Point F) × (areas numbers elapsed d ≡ some (a, b))
      × (resolve numbers d.radius (rows a) (columns a) (potential numbers elapsed d) ≡ some moved)
      × (hits_wall (rows b) (columns b) ≡ some false)
      × (d' ≡ record d { pos = moved; bullet_pos = bullet_potential numbers elapsed d })

  -- An object that moves on, and whose bullet meets a wall.
  abbrev pub Loses : F → PlayerDescription F → PlayerDescription F → Type 0
  Loses elapsed d d' =
      (a : Area) × (b : Area) × (moved : Point F) × (areas numbers elapsed d ≡ some (a, b))
      × (resolve numbers d.radius (rows a) (columns a) (potential numbers elapsed d) ≡ some moved)
      × (hits_wall (rows b) (columns b) ≡ some true)
      × (d' ≡ bereft moved d)

  -- With no wall around, an object moves on in a straight line.
  pub free-Flies :
      (elapsed : F) (d : PlayerDescription F) (a b : Area)
      → areas numbers elapsed d ≡ some (a, b)
      → IsFree (rows a) (columns a)
      → IsFree (rows b) (columns b)
      → Flies elapsed d (onward elapsed d)
  free-Flies elapsed d a b e h k = (
    a,
    b,
    potential numbers elapsed d,
    e,
    resolve-free d.radius (rows a) (columns a) (potential numbers elapsed d) h,
    hits_wall-free (rows b) (columns b) k,
    refl,
  )

  pub update_object-Flies :
      (elapsed : F) (d d' : PlayerDescription F)
      → Flies elapsed d d'
      → update_object numbers elapsed d ≡ some (d', false)
  unfolding update_object
  update_object-Flies elapsed d d' (a, b, moved, e, f, g, same) =
      rw (e, f, g) (ap (λ (x : PlayerDescription F). some (x, false)) (sym same))

  pub update_object-Loses :
      (elapsed : F) (d : PlayerDescription F) (a b : Area) (moved : Point F)
      → areas numbers elapsed d ≡ some (a, b)
      → resolve numbers d.radius (rows a) (columns a) (potential numbers elapsed d) ≡ some moved
      → hits_wall (rows b) (columns b) ≡ some true
      → update_object numbers elapsed d ≡ some (bereft moved d, true)
  unfolding update_object
  update_object-Loses elapsed d a b moved e f g = rw (e, f, g) refl

  -- What becomes of an object, by whether the function returns there.
  abbrev pub After : F → PlayerDescription F → PlayerDescription F → Bool → Type 0
  After elapsed d d' true = Loses elapsed d d'
  After elapsed d d' false = Flies elapsed d d'

  settled-After :
      (elapsed : F) (d : PlayerDescription F) (r : PlayerDescription F × Bool) (a b : Area)
      (moved : Point F) (hit : Bool)
      → areas numbers elapsed d ≡ some (a, b)
      → resolve numbers d.radius (rows a) (columns a) (potential numbers elapsed d) ≡ some moved
      → hits_wall (rows b) (columns b) ≡ some hit
      → settle numbers d moved (bullet_potential numbers elapsed d) hit ≡ r
      → After elapsed d r.0 r.1
  settled-After elapsed d r a b moved true e f g same =
      subst (λ (x : PlayerDescription F × Bool). After elapsed d x.0 x.1) same
        (a, b, moved, e, f, g, refl)
  settled-After elapsed d r a b moved false e f g same =
      subst (λ (x : PlayerDescription F × Bool). After elapsed d x.0 x.1) same
        (a, b, moved, e, f, g, refl)

  -- What a defined step of the loop gives.
  pub update_object-After :
      (elapsed : F) (d : PlayerDescription F) (r : PlayerDescription F × Bool)
      → update_object numbers elapsed d ≡ some r
      → After elapsed d r.0 r.1
  unfolding update_object
  update_object-After elapsed d r e =
      let q = bullet_potential numbers elapsed d in
      let settles = λ (moved : Point F) (hit : Bool). some (settle numbers d moved q hit) in
      let falls = λ (a : Area × Area) (moved : Point F).
        hits_wall (rows a.1) (columns a.1) >>= settles moved in
      let moves = λ (a : Area × Area).
        resolve numbers d.radius (rows a.0) (columns a.0) (potential numbers elapsed d)
        >>= falls a in
      let (a, e1, f1) = bind-inverts (areas numbers elapsed d) moves r e in
      let (p, e2, f2) = bind-inverts _ (falls a) r f1 in
      let (hit, e3, f3) = bind-inverts _ (settles p) r f2 in
      settled-After elapsed d r a.0 a.1 p hit e1 e2 e3 (some-eq f3)
