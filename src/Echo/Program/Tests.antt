-- ===== src/Echo/Program/Tests.antt =====
-- Two requests side by side; the second is refused.
use networking_projects.Prelude.{
  codes, some, refl, ℕ, zero, suc, ◌+◌, ◌≤◌, ◌<◌, ◌≡◌, false, true, List, [], ◌∷◌, ◌++◌,
  if◌then◌else◌, arith, length,
}
use networking_projects.Prelude.Int.{negsuc}
use networking_projects.Echo.Client.{Answers, send_msg, completed, on_connected, on_written}
use networking_projects.Echo.Program.{
  atoi, to_unsigned, main, run_client, usage, terminated, Program, Event, exited, goes_on, over,
  on_event, on_events, requests, close, hello_server,
}
use networking_projects.Echo.Program.Requests.{AreServed, requests-AreServed}
use networking_projects.Echo.Program.Closing.{count, close-exited}

abbrev silent : ℕ → List ℕ
silent ec = []

abbrev good : List ℕ → ℕ
good address = 0

abbrev well : Answers
well = record { connect_ec = 0; write_ec = 0; read_ec = 0; received = 104 ∷ 105 ∷ 10 ∷ [] }

abbrev refused : Answers
refused = record well { connect_ec = 111 }

abbrev at : ℕ → Answers → Event
at i answers = record { place = i; answers = answers }

abbrev begin : Program
begin = record {
  is_connected = false;
  has_work = true;
  sessions = [];
  terminal = [];
  port = 3333;
  seconds = 2;
}

abbrev sleeps : List (List Event)
sleeps = (at 0 well ∷ []) ∷ (at 1 refused ∷ at 0 well ∷ []) ∷ []

requests-AreServed_example :
    AreServed (requests silent good hello_server sleeps begin).0
    × (length (requests silent good hello_server sleeps begin).0.sessions
        ≤ length begin.sessions + length sleeps)
requests-AreServed_example = requests-AreServed silent good hello_server sleeps begin tt

abbrev two_requests : Program
two_requests = record begin {
  sessions =
      send_msg false hello_server hello_server ∷ send_msg true hello_server hello_server ∷ [];
}

-- One answer is still to come for each request, and then none.
abbrev first_events : List Event
first_events = at 0 well ∷ at 1 well ∷ at 0 well ∷ at 1 well ∷ []

abbrev all_events : List Event
all_events = first_events ++ at 1 well ∷ at 0 well ∷ []

enough : (j : ℕ) → j < length two_requests.sessions → 3 ≤ count j all_events
enough zero h = omega arith
enough (suc zero) h = omega arith
enough (suc (suc j)) h = absurd (omega arith)

busy :
    over (on_events silent good (record two_requests { has_work = false }) first_events).sessions
    ≡ false
unfolding on_events on_event send_msg completed on_connected on_written
busy = refl

close-exited_example :
    let q = on_events silent good (record two_requests { has_work = false }) in
    (close silent good two_requests first_events ≡ (
      if over (q first_events).sessions
      then exited 0 (q first_events).terminal
      else goes_on (q first_events)))
    × ((q all_events).has_work ≡ false)
    × (over (q all_events).sessions ≡ true)
    × (close silent good two_requests all_events ≡ exited 0 (q all_events).terminal)
close-exited_example = close-exited silent good two_requests first_events all_events enough

negative : atoi (codes " -12x") ≡ some (negsuc 11)
unfolding atoi
negative = refl

-- No address is good.
abbrev bad : List ℕ → ℕ
bad address = 22

bad_address :
    main silent bad (codes "here" ∷ codes "3333" ∷ codes "Ted" ∷ codes "2" ∷ []) sleeps []
    ≡ some terminated
unfolding main run_client atoi to_unsigned
bad_address = refl

too_few_arguments : main silent bad (codes "here" ∷ []) sleeps [] ≡ some (exited 0 usage)
unfolding main
too_few_arguments = refl
