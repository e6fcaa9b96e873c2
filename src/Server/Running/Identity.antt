-- ===== src/Server/Running/Identity.antt =====
-- The identifiers of a server at work.
use native.Mathlib.Decide.{ℕ_discrete}
use networking_projects.Prelude.{
  get_elem?-set_same, ◌>>=◌, ℕ, zero, suc, ◌+◌, ◌-◌, ◌^◌, ◌≤◌, ◌<◌, ◌≡◌, ◌≢◌, refl, sym, ap, subst,
  ◌∙◌, List, [], ◌∷◌, Option, none, some, arith, length, get_elem?, set, some-eq, bind-inverts,
}
use networking_projects.Message.{Message}
use networking_projects.Connection.Types.{Connection, Platform}
use networking_projects.Server.{Server, Hooks, on_accept, update}
use networking_projects.Server.Identity.{Rising, IsNumbered, Numbered, accepts-Numbered}
use networking_projects.Server.Running.{Happening, accepted, completed, happen, happen_all, serve}
use networking_projects.Server.Running.Steps.{Closed, completed-Inv, update-Inv}

get_elem?-set_other :
    {A : Type 0} (xs : List A) (i j : ℕ) (b : A) → i ≢ j → get_elem? (set xs i b) j ≡ get_elem? xs j
get_elem?-set_other [] i j b h = refl
get_elem?-set_other (x ∷ xs) zero zero b h = absurd (h refl)
get_elem?-set_other (x ∷ xs) zero (suc j) b h = refl
get_elem?-set_other (x ∷ xs) (suc i) zero b h = refl
get_elem?-set_other (x ∷ xs) (suc i) (suc j) b h = get_elem?-set_other xs i j b (λ e. h (ap suc e))

-- A connection may be replaced by one with its identifier.
Rising-set :
    {T : Type 0} (heap : List (Connection T)) (p : ℕ) (c c' : Connection T) (lo : ℕ)
    (cs : List (Option ℕ)) (hi : ℕ)
    → get_elem? heap p ≡ some c
    → c'.id ≡ c.id
    → Rising heap lo cs hi
    → Rising (set heap p c') lo cs hi
Rising-set heap p c c' lo [] hi e same r = r
Rising-set heap p c c' lo (none ∷ cs) hi e same r = r
Rising-set heap p c c' lo (some q ∷ cs) hi e same (d, f, l, r) =
    let rest = Rising-set heap p c c' (suc d.id) cs hi e same r in
    elim (ℕ_discrete p q) [
      | yes here ↦
          let it : d ≡ c = some-eq (sym f ∙ ap (get_elem? heap) (sym here) ∙ e) in
          let number : d.id ≡ c'.id = ap (λ (x : Connection _). x.id) it ∙ sym same in
          (
            c',
            subst (λ i. get_elem? (set heap p c') i ≡ some c') here
                (get_elem?-set_same heap p c c' e),
            subst (λ n. lo ≤ n) number l,
            subst (λ n. Rising (set heap p c') (suc n) cs hi) number rest,
          )
      | no other ↦ (d, get_elem?-set_other heap p q c' other ∙ f, l, rest)
    ]

-- So many things happen in these turns.
abbrev pub total : {T : Type 0} → List (List (Happening T)) → ℕ
total [] = 0
total (hs ∷ turns) = length hs + total turns

module _ {T S : Type 0} (platform : Platform T) (hooks : Hooks T S) where
  abbrev Fits : Server T S → ℕ → Type 0
  Fits = Numbered platform hooks

  pub Fits-closed : (n : ℕ) → Closed platform hooks (λ s. Fits s n)
  Fits-closed n = record {
    replaced = λ s p c c' there same (r, k).
        (Rising-set s.heap p c c' 10000 s.connections s.id_counter there same r, k);
    posts = λ s l h. h;
    queues = λ s q h. h;
    hears = λ s c h. h;
  }

  happen-Fits :
      (s t : Server T S) (h : Happening T) (n : ℕ)
      → happen platform hooks s h ≡ some t
      → Fits s n
      → n + 1 < 2 ^ 32
      → Fits t (n + 1)
  unfolding happen on_accept
  happen-Fits s t (accepted none) n e (r, k) small =
      subst (λ u. Fits u (n + 1)) (some-eq e) (r, omega (arith, k))
  happen-Fits s t (accepted (some now)) n e (r, k) small =
      let (r', k') = accepts-Numbered platform hooks s now r (omega (arith, k)) in
      subst (λ u. Fits u (n + 1)) (some-eq e) (r', omega (arith, k, k'))
  happen-Fits s t (completed p event) n e (r, k) small =
      let (r', k') =
        completed-Inv platform hooks (Fits-closed n) s t p event (get_elem? s.heap p) refl e
          (r, k) in
      (r', omega (arith, k'))

  happen_all-Fits :
      (hs : List (Happening T)) (s t : Server T S) (n : ℕ)
      → happen_all platform hooks s hs ≡ some t
      → Fits s n
      → n + length hs < 2 ^ 32
      → Fits t (n + length hs)
  unfolding happen_all
  happen_all-Fits [] s t n e (r, k) small =
      subst (λ u. Fits u (n + 0)) (some-eq e) (r, omega (arith, k))
  happen_all-Fits (h ∷ hs) s t n e fits small =
      let (u, first, rest) =
        bind-inverts (happen platform hooks s h) (λ v. happen_all platform hooks v hs) t e in
      let fits' = happen-Fits s u h n first fits (omega (arith, small)) in
      let (r, k) = happen_all-Fits hs u t (n + 1) rest fits' (omega (arith, small)) in
      (r, omega (arith, k))

  -- A handler of messages that leaves connections and identifiers as they are.
  abbrev pub IsFair : (Server T S → Option ℕ → Message T → Option (Server T S)) → Type 0
  IsFair on_message =
      (s t : Server T S) (remote : Option ℕ) (m : Message T) (n : ℕ)
      → on_message s remote m ≡ some t
      → Fits s n
      → Fits t n

  module _ (on_message : Server T S → Option ℕ → Message T → Option (Server T S))
      (fair : IsFair on_message) where
    pub serve-Numbered :
        (turns : List (List (Happening T))) (s t : Server T S) (n : ℕ)
        → serve platform hooks on_message s turns ≡ some t
        → Fits s n
        → n + total turns < 2 ^ 32
        → IsNumbered platform hooks t
    unfolding serve
    serve-Numbered [] s t n e (r, k) small = subst (IsNumbered platform hooks) (some-eq e) r
    serve-Numbered (hs ∷ turns) s t n e fits small =
        let (u, first, f) =
          bind-inverts (happen_all platform hooks s hs)
            (λ v. update platform hooks on_message (2 ^ 64 - 1) v >>= λ w.
              serve platform hooks on_message w turns)
            t e in
        let (v, second, last) =
          bind-inverts (update platform hooks on_message (2 ^ 64 - 1) u)
            (λ w. serve platform hooks on_message w turns) t f in
        let happened = happen_all-Fits hs s u n first fits (omega (arith, small)) in
        serve-Numbered turns v t (n + length hs) last
          (update-Inv platform hooks (Fits-closed (n + length hs)) on_message
            (λ s t remote m. fair s t remote m (n + length hs)) (2 ^ 64 - 1) u v second happened)
          (omega (arith, small))
