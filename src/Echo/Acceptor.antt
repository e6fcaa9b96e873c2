-- ===== src/Echo/Acceptor.antt =====
-- src/server/acceptor.cpp: accepting connections until told to stop.
use networking_projects.Prelude.{
  ℕ, ◌+◌, ◌≤◌, ◌≡◌, refl, Bool, true, false, List, [], ◌∷◌, if◌then◌else◌, arith,
}

pub record Acceptor : Type 0 where
  pub is_stopped : Bool
  pub listening : Bool
  -- An `async_accept` is pending.
  pub accepting : Bool
  -- How many services have been started.
  pub services : ℕ

unfoldable pub init_accept : Acceptor → Acceptor
init_accept a = record a { accepting = true }

unfoldable pub start : Acceptor
unfolding init_accept
start =
    init_accept (record { is_stopped = false; listening = true; accepting = false; services = 0 })

unfoldable pub stop : Acceptor → Acceptor
stop a = record a { is_stopped = true }

-- The pending accept has completed, well or with an error.
unfoldable pub on_accept : Acceptor → Bool → Acceptor
unfolding init_accept
on_accept a ok =
    let served = if ok then a.services + 1 else a.services in
    let a' = record a { accepting = false; services = served } in
    if a.is_stopped then record a' { listening = false } else init_accept a'

pub data Event : Type 0 where
  accepts fails stops : Event

-- Nothing completes when no accept is pending.
unfoldable pub step : Acceptor → Event → Acceptor
unfolding on_accept stop
step a accepts = if a.accepting then on_accept a true else a
step a fails = if a.accepting then on_accept a false else a
step a stops = stop a

unfoldable pub run : Acceptor → List Event → Acceptor
run a [] = a
run a (e ∷ es) = run (step a e) es

-- An accept is pending exactly as long as the acceptor listens, and it listens until it is stopped.
abbrev pub IsSound : Acceptor → Type 0
IsSound a = (a.accepting ≡ a.listening) × (a.is_stopped ≡ false → a.listening ≡ true)

step-IsSound : (a : Acceptor) (e : Event) → IsSound a → IsSound (step a e)
unfolding step on_accept stop init_accept
step-IsSound a accepts h = grind arith
step-IsSound a fails h = grind arith
step-IsSound a stops h = grind arith

run_from-IsSound : (es : List Event) (a : Acceptor) → IsSound a → IsSound (run a es)
unfolding run
run_from-IsSound [] a h = h
run_from-IsSound (e ∷ es) a h = run_from-IsSound es (step a e) (step-IsSound a e h)

-- The services started and the accept that is pending.
abbrev promised : Acceptor → ℕ
promised a = if a.accepting then a.services + 1 else a.services

step-promised :
    (a : Acceptor) (e : Event)
    → a.is_stopped ≡ true
    → ((step a e).is_stopped ≡ true) × (promised (step a e) ≤ promised a)
unfolding step on_accept stop
step-promised a accepts h = grind arith
step-promised a fails h = grind arith
step-promised a stops h = grind arith

run-services :
    (es : List Event) (a : Acceptor) → a.is_stopped ≡ true → (run a es).services ≤ promised a
unfolding run
run-services [] a h = grind arith
run-services (e ∷ es) a h =
    let (still, fewer) = step-promised a e h in
    omega (arith, run-services es (step a e) still, fewer)

-- Whatever comes, an accept is pending exactly as long as the acceptor listens; it listens at least
-- until it is stopped; and after that it starts no more than one service.
pub run-IsSound :
    (es later : List Event)
    → IsSound (run start es)
      × ((run (stop (run start es)) later).services ≤ (run start es).services + 1)
unfolding start stop
run-IsSound es later =
    let a = run start es in
    (run_from-IsSound es start (refl, λ _. refl), grind (arith, run-services later (stop a) refl))
