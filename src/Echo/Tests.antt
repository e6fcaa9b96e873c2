-- ===== src/Echo/Tests.antt =====
-- Ann says hi.
use networking_projects.Prelude.{ℕ, ◌+◌, ◌≤◌, ◌≡◌, false, List, [], ◌∷◌, ◌++◌, some, arith}
use networking_projects.Echo.Text.{newline, semicolon, Lacks}
use networking_projects.Echo.Service.{hello, exclamation, greeting, process_msg}
use networking_projects.Echo.Client.{
  Answers, request_line, send_msg, run, outcome, IsDone, run-IsDone,
}
use networking_projects.Echo.Acceptor
use networking_projects.Echo.Acceptor.{accepts, fails, stops, IsSound, run-IsSound}
use networking_projects.Echo.Greeting.{
  process_msg-line, process_msg-no_delimiter, all_well, run-greets,
}
use networking_projects.Echo.Server

abbrev ann : List ℕ
ann = 65 ∷ 110 ∷ 110 ∷ []

abbrev hi : List ℕ
hi = 104 ∷ 105 ∷ []

no_semicolon : Lacks semicolon ann
no_semicolon = (λ e. omega arith, (λ e. omega arith, (λ e. omega arith, tt)))

no_newline : Lacks newline ann
no_newline = (λ e. omega arith, (λ e. omega arith, (λ e. omega arith, tt)))

ann_says_hi :
    process_msg ((ann ++ semicolon ∷ hi) ++ newline ∷ [])
    ≡ some (record { client_name = ann; client_message = hi; response = greeting ann })
ann_says_hi = process_msg-line ann hi newline no_semicolon (omega arith)

undelimited_line :
    process_msg (ann ++ newline ∷ [])
    ≡ some (record { client_name = ann; client_message = ann; response = greeting ann })
undelimited_line = process_msg-no_delimiter ann newline no_semicolon (omega arith)

run-greets_example :
    (process_msg (request_line ann hi)
      ≡ some (record { client_name = ann; client_message = hi; response = greeting ann }))
    × IsDone
        (run (3 + 2) (all_well (greeting ann)) (send_msg false ann hi))
        (hello ++ (ann ++ exclamation ∷ []), 0)
run-greets_example = run-greets 2 false ann hi no_semicolon no_newline (omega arith)

-- The write fails with error 9.
abbrev broken : Answers
broken = record { connect_ec = 0; write_ec = 9; read_ec = 0; received = [] }

run-IsDone_example : IsDone (run (3 + 0) broken (send_msg false ann hi)) (outcome broken)
run-IsDone_example = run-IsDone 0 broken false ann hi

run-IsSound_example :
    IsSound (Acceptor.run Acceptor.start (accepts ∷ fails ∷ []))
    × ((Acceptor.run
          (Acceptor.stop (Acceptor.run Acceptor.start (accepts ∷ fails ∷ [])))
          (accepts ∷ accepts ∷ [])).services
        ≤ (Acceptor.run Acceptor.start (accepts ∷ fails ∷ [])).services + 1)
run-IsSound_example = run-IsSound (accepts ∷ fails ∷ []) (accepts ∷ accepts ∷ [])
