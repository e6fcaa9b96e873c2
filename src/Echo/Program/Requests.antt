-- ===== src/Echo/Program/Requests.antt =====
-- What becomes of the requests, however their operations complete side by side.
use networking_projects.Prelude.{
  ℕ, zero, suc, ◌+◌, ◌≤◌, ◌≡◌, ◌⊎◌, refl, sym, ap, subst, ◌∙◌, List, [], ◌∷◌, ◌++◌, Option, none,
  some, ◌==◌, length, length-append, get_elem?, set, All, All-append, arith, Bool-cases,
  Option-cases, inl, inr, some-eq, some≢none,
}
use networking_projects.Echo.Client.{
  Client, Answers, Pending, connect, write_request, read_response, send_msg, completed,
  on_connected, on_written, on_response_read, on_request_complete,
}
use networking_projects.Echo.Program.{Program, Event, on_event, on_events, request, requests}

abbrev pub under_way : Option Pending → ℕ
under_way none = 0
under_way (some op) = 1

-- The user's callback has been called once, or the request is under way and it has not been called.
abbrev pub IsServed : Client → Type 0
IsServed c = length c.calls + under_way c.pending ≡ 1

finished :
    (calls : List (List ℕ × ℕ)) (call : List ℕ × ℕ)
    → length calls ≡ 0
    → length (calls ++ call ∷ []) + 0 ≡ 1
finished calls call h = omega (arith, h, length-append calls (call ∷ []))

-- One completion serves a request on.
completed-IsServed :
    (r : Answers) (c : Client) (pending : Option Pending)
    → c.pending ≡ pending
    → length c.calls + under_way pending ≡ 1
    → IsServed (completed r c pending)
unfolding completed on_connected on_written on_response_read on_request_complete
completed-IsServed r c none e h = subst (λ o. length c.calls + under_way o ≡ 1) (sym e) h
completed-IsServed r c (some connect) e h = elim (Bool-cases (r.connect_ec == 0)) [
  | inl ok ↦ rw ok h
  | inr bad ↦ rw bad (finished c.calls _ (omega (arith, h)))
]
completed-IsServed r c (some write_request) e h = elim (Bool-cases (r.write_ec == 0)) [
  | inl ok ↦ rw ok h
  | inr bad ↦ rw bad (finished c.calls _ (omega (arith, h)))
]
completed-IsServed r c (some read_response) e h = elim (Bool-cases (r.read_ec == 0)) [
  | inl ok ↦ rw ok (finished c.calls _ (omega (arith, h)))
  | inr bad ↦ rw bad (finished c.calls _ (omega (arith, h)))
]

All-get :
    {A : Type 0} (P : A → Type 0) (xs : List A) (i : ℕ) (a : A)
    → All P xs
    → get_elem? xs i ≡ some a
    → P a
All-get P [] i a h e = absurd (some≢none (sym e))
All-get P (x ∷ xs) zero a h e = subst P (some-eq e) h.0
All-get P (x ∷ xs) (suc i) a h e = All-get P xs i a h.1 e

All-set :
    {A : Type 0} (P : A → Type 0) (xs : List A) (i : ℕ) (a : A)
    → All P xs
    → P a
    → All P (set xs i a)
All-set P [] i a h k = tt
All-set P (x ∷ xs) zero a h k = (k, h.1)
All-set P (x ∷ xs) (suc i) a h k = (h.0, All-set P xs i a h.1 k)

length-set : {A : Type 0} (xs : List A) (i : ℕ) (a : A) → length (set xs i a) ≡ length xs
length-set [] i a = refl
length-set (x ∷ xs) zero a = refl
length-set (x ∷ xs) (suc i) a = ap suc (length-set xs i a)

abbrev pub AreServed : Program → Type 0
AreServed p = All IsServed p.sessions

module _ (message : ℕ → List ℕ) (address_ec : List ℕ → ℕ) where
  -- What one event does to the requests.
  pub on_event-sessions :
      (p : Program) (e : Event)
      → ((get_elem? p.sessions e.place ≡ none)
          × ((on_event message address_ec p e).sessions ≡ p.sessions))
        ⊎ ((c : Client) × (get_elem? p.sessions e.place ≡ some c)
            × ((on_event message address_ec p e).sessions
                ≡ set p.sessions e.place
                    (completed e.answers (record c { is_connected = p.is_connected }) c.pending)))
  unfolding on_event
  on_event-sessions p e = elim (Option-cases (get_elem? p.sessions e.place)) [
    | inl nowhere ↦ inl (nowhere, rw (nowhere, on_event) refl)
    | inr (c, there) ↦ inr (c, there, rw (there, on_event) refl)
  ]

  on_event-AreServed :
      (p : Program) (e : Event) → AreServed p → AreServed (on_event message address_ec p e)
  on_event-AreServed p e h = elim (on_event-sessions p e) [
    | inl (nowhere, same) ↦ subst (All IsServed) (sym same) h
    | inr (c, there, changed) ↦
        let c' = record c { is_connected = p.is_connected } in
        let served =
          completed-IsServed e.answers c' c.pending refl
            (All-get IsServed p.sessions e.place c h there) in
        subst (All IsServed) (sym changed) (All-set IsServed p.sessions e.place _ h served)
  ]

  on_event-length :
      (p : Program) (e : Event)
      → length (on_event message address_ec p e).sessions ≡ length p.sessions
  on_event-length p e = elim (on_event-sessions p e) [
    | inl (nowhere, same) ↦ ap length same
    | inr (c, there, changed) ↦ ap length changed ∙ length-set p.sessions e.place _
  ]

  on_events-AreServed :
      (p : Program) (es : List Event) → AreServed p → AreServed (on_events message address_ec p es)
  unfolding on_events
  on_events-AreServed p [] h = h
  on_events-AreServed p (e ∷ es) h =
      on_events-AreServed (on_event message address_ec p e) es (on_event-AreServed p e h)

  on_events-length :
      (p : Program) (es : List Event)
      → length (on_events message address_ec p es).sessions ≡ length p.sessions
  unfolding on_events
  on_events-length p [] = refl
  on_events-length p (e ∷ es) =
      on_events-length (on_event message address_ec p e) es ∙ on_event-length p e

  request-AreServed :
      (name : List ℕ) (p : Program) → AreServed p → AreServed (request message address_ec name p)
  unfolding request send_msg
  request-AreServed name p h = All-append IsServed p.sessions _ h (omega arith, tt)

  request-length :
      (name : List ℕ) (p : Program)
      → length (request message address_ec name p).sessions ≡ length p.sessions + 1
  unfolding request
  request-length name p = length-append p.sessions _

  -- However the requests' operations complete during the sleeps, and whether the loop has ended or not,
  -- for each request the callback has been called exactly once, or it is under way and the callback has
  -- not been called; and at most one request was made in each round.
  pub requests-AreServed :
      (name : List ℕ) (sleeps : List (List Event)) (p : Program)
      → AreServed p
      → AreServed (requests message address_ec name sleeps p).0
        × (length (requests message address_ec name sleeps p).0.sessions
            ≤ length p.sessions + length sleeps)
  unfolding requests
  requests-AreServed name [] p h = (h, omega arith)
  requests-AreServed name (es ∷ sleeps) p h =
      let p' = on_events message address_ec (request message address_ec name p) es in
      let served = on_events-AreServed _ es (request-AreServed name p h) in
      let made : length p'.sessions ≡ length p.sessions + 1 =
        on_events-length _ es ∙ request-length name p in
      let (later, bounded) = requests-AreServed name sleeps p' served in
      elim (Bool-cases p'.is_connected) [
        | inl again ↦ rw again (later, omega (arith, bounded, made))
        | inr last ↦ rw last (served, omega (arith, made))
      ]
