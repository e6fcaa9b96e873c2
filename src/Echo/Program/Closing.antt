-- ===== src/Echo/Program/Closing.antt =====
-- The end of the program: `Close` waits until no request is under way.
use networking_projects.Prelude.{
  ℕ, zero, suc, ◌+◌, ◌-◌, ◌≤◌, ◌<◌, ◌≡◌, ◌≢◌, ◌⊎◌, refl, sym, ap, subst, ◌∙◌, true, false, List, [],
  ◌∷◌, Option, none, some, ◌==◌, ==_iff, if◌then◌else◌, length, get_elem?, set, arith, Bool-cases,
  Option-cases, false, inl, inr, some-eq, some≢none,
}
use networking_projects.Echo.Text.{differs}
use networking_projects.Echo.Client.{
  Client, Answers, Pending, connect, write_request, read_response, completed, on_connected,
  on_written, on_response_read, on_request_complete,
}
use networking_projects.Echo.Program.Requests.{on_event-sessions}
use networking_projects.Echo.Program.{
  Program, Event, exited, goes_on, on_event, on_events, over, close,
}

-- The operations that are left of a request at most.
abbrev pub need : Option Pending → ℕ
need none = 0
need (some connect) = 3
need (some write_request) = 2
need (some read_response) = 1

-- It takes at least one operation off what is left.
completed-need :
    (r : Answers) (c : Client) (pending : Option Pending)
    → c.pending ≡ pending
    → need (completed r c pending).pending ≤ need pending - 1
unfolding completed on_connected on_written on_response_read on_request_complete
completed-need r c none e = subst (λ o. need o ≤ 0) (sym e) (omega arith)
completed-need r c (some connect) e = elim (Bool-cases (r.connect_ec == 0)) [
  | inl ok ↦ rw ok (omega arith)
  | inr bad ↦ rw bad (omega arith)
]
completed-need r c (some write_request) e = elim (Bool-cases (r.write_ec == 0)) [
  | inl ok ↦ rw ok (omega arith)
  | inr bad ↦ rw bad (omega arith)
]
completed-need r c (some read_response) e = elim (Bool-cases (r.read_ec == 0)) [
  | inl ok ↦ rw ok (omega arith)
  | inr bad ↦ rw bad (omega arith)
]

-- What stands in a list after a write: what was written, or what was there.
get_elem?-set :
    {A : Type 0} (xs : List A) (i j : ℕ) (a b : A)
    → get_elem? (set xs i a) j ≡ some b
    → ((i ≡ j) × (a ≡ b)) ⊎ ((i ≢ j) × (get_elem? xs j ≡ some b))
get_elem?-set [] i j a b e = absurd (some≢none (sym e))
get_elem?-set (x ∷ xs) zero zero a b e = inl (refl, some-eq e)
get_elem?-set (x ∷ xs) zero (suc j) a b e = inr (λ h. omega (arith, h), e)
get_elem?-set (x ∷ xs) (suc i) zero a b e = inr (λ h. omega (arith, h), e)
get_elem?-set (x ∷ xs) (suc i) (suc j) a b e = elim (get_elem?-set xs i j a b e) [
  | inl (same, it) ↦ inl (ap suc same, it)
  | inr (other, there) ↦ inr (λ h. other (omega (arith, h)), there)
]

-- How often an operation of the request at this place completes.
abbrev pub count : ℕ → List Event → ℕ
count i [] = 0
count i (e ∷ es) = (if e.place == i then 1 else 0) + count i es

module _ (message : ℕ → List ℕ) (address_ec : List ℕ → ℕ) where
  on_event-need :
      (p : Program) (e : Event) (j : ℕ) (c' : Client)
      → get_elem? (on_event message address_ec p e).sessions j ≡ some c'
      → (c : Client) × (get_elem? p.sessions j ≡ some c)
        × (need c'.pending ≤ need c.pending - (if e.place == j then 1 else 0))
  on_event-need p e j c' here = elim (on_event-sessions message address_ec p e) [
    | inl (nowhere, same) ↦
        let there = ap (λ l. get_elem? l j) (sym same) ∙ here in
        elim (Bool-cases (e.place == j)) [
          | inr other ↦ (c', there, rw other (omega arith))
          | inl at ↦
              let at' =
                subst (λ i. get_elem? p.sessions i ≡ none) ((==_iff e.place j).0 at) nowhere in
              absurd (some≢none (sym there ∙ at'))
        ]
    | inr (c, there, changed) ↦
        elim (get_elem?-set p.sessions e.place j _ c'
          (ap (λ l. get_elem? l j) (sym changed) ∙ here)) [
            | inl (at, it) ↦ (
              c,
              subst (λ i. get_elem? p.sessions i ≡ some c) at there,
              subst (λ d. need d.pending ≤ need c.pending - (if e.place == j then 1 else 0)) it
                  (rw ((==_iff e.place j).1 at) (
                    completed-need e.answers (record c { is_connected = p.is_connected }) c.pending
                      refl)),
            )
            | inr (other, stays) ↦ (c', stays, rw (differs e.place j other) (omega arith))
          ]
  ]

  on_events-need :
      (p : Program) (es : List Event) (j : ℕ) (c' : Client)
      → get_elem? (on_events message address_ec p es).sessions j ≡ some c'
      → (c : Client) × (get_elem? p.sessions j ≡ some c)
        × (need c'.pending ≤ need c.pending - count j es)
  unfolding on_events
  on_events-need p [] j c' here = (c', here, omega arith)
  on_events-need p (e ∷ es) j c' here =
      let (d, there, less) = on_events-need (on_event message address_ec p e) es j c' here in
      let (c, before, less') = on_event-need p e j d there in
      (c, before, omega (arith, less, less'))

  over-all :
      (cs : List Client)
      → ((j : ℕ) (c : Client) → get_elem? cs j ≡ some c → need c.pending ≤ 0)
      → over cs ≡ true
  over-all [] h = refl
  over-all (c ∷ cs) h = rw (idle c.pending (h 0 c refl)) (over-all cs (λ j d e. h (suc j) d e))
    where
      idle : (o : Option Pending) → need o ≤ 0 → o ≡ none
      idle none k = refl
      idle (some connect) k = absurd (omega (arith, k))
      idle (some write_request) k = absurd (omega (arith, k))
      idle (some read_response) k = absurd (omega (arith, k))

  need_le : (o : Option Pending) → need o ≤ 3
  need_le none = omega arith
  need_le (some connect) = omega arith
  need_le (some write_request) = omega arith
  need_le (some read_response) = omega arith

  on_event-has_work :
      (p : Program) (e : Event) → (on_event message address_ec p e).has_work ≡ p.has_work
  unfolding on_event
  on_event-has_work p e = elim (Option-cases (get_elem? p.sessions e.place)) [
    | inl nowhere ↦ rw (nowhere, on_event) refl
    | inr (c, here) ↦ rw (here, on_event) refl
  ]

  on_events-has_work :
      (p : Program) (es : List Event) → (on_events message address_ec p es).has_work ≡ p.has_work
  unfolding on_events
  on_events-has_work p [] = refl
  on_events-has_work p (e ∷ es) =
      on_events-has_work (on_event message address_ec p e) es ∙ on_event-has_work p e

  -- Whatever completes after the call of `Close`, `Close` has returned, and the program ended with exit
  -- code 0, exactly if no request is under way any more. When three operations at least complete for each
  -- request since the call, in any order and with any answers, the work object is gone, no request is
  -- left under way, and the program ends with exit code 0.
  pub close-exited :
      (p : Program) (any es : List Event)
      → ((j : ℕ) → j < length p.sessions → 3 ≤ count j es)
      → let q = on_events message address_ec (record p { has_work = false }) in
        (close message address_ec p any
          ≡ (if over (q any).sessions then exited 0 (q any).terminal else goes_on (q any)))
        × ((q es).has_work ≡ false)
        × (over (q es).sessions ≡ true)
        × (close message address_ec p es ≡ exited 0 (q es).terminal)
  unfolding close
  close-exited p any es enough =
      let p' = record p { has_work = false } in
      let q = on_events message address_ec p' in
      let idle = over-all (q es).sessions λ j c here.
        let (d, before, less) = on_events-need p' es j c here in
        omega (arith, less, need_le d.pending, enough j (inside p.sessions j d before)) in
      (
        elim (Bool-cases (over (q any).sessions)) [
          | inl done ↦ rw (done, on_events-has_work p' any) refl
          | inr busy ↦ rw (busy, on_events-has_work p' any) refl
        ],
        on_events-has_work p' es,
        idle,
        rw (idle, on_events-has_work p' es) refl,
      )
    where
      inside : (cs : List Client) (j : ℕ) (c : Client) → get_elem? cs j ≡ some c → j < length cs
      inside [] j c e = absurd (some≢none (sym e))
      inside (x ∷ cs) zero c e = omega arith
      inside (x ∷ cs) (suc j) c e = omega (arith, inside cs j c e)
