-- ===== src/Echo/Client.antt =====
-- src/client/client.cpp and include/client/session.h: one request, from the connection to the callback.
-- An error code is a number, 0 for success.
use networking_projects.Prelude.{
  ℕ, zero, suc, ◌+◌, ◌≡◌, refl, sym, ap, ◌∙◌, subst, Bool, true, false, List, [], ◌∷◌, ◌++◌, ◌==◌,
  if◌then◌else◌, arith, Option, none, some, Bool-cases, inl, inr,
}
use networking_projects.Echo.Text.{newline, semicolon, getline}

pub record Session : Type 0 where
  pub request : List ℕ
  pub response : List ℕ
  pub ec : ℕ

-- The operation that asio has been given.
pub data Pending : Type 0 where
  connect write_request read_response : Pending

pub record Client : Type 0 where
  pub session : Session
  pub is_connected : Bool
  pub pending : Option Pending
  -- The calls of the user's callback, with the response and the error code.
  pub calls : List (List ℕ × ℕ)

unfoldable pub request_line : List ℕ → List ℕ → List ℕ
request_line client_name message = client_name ++ semicolon ∷ (message ++ newline ∷ [])

-- `is_connected` is what earlier requests left.
unfoldable pub send_msg : Bool → List ℕ → List ℕ → Client
unfolding request_line
send_msg is_connected client_name message = record {
  session = record { request = request_line client_name message; response = []; ec = 0 };
  is_connected = is_connected;
  pending = some connect;
  calls = [];
}

unfoldable pub on_request_complete : Client → Session → Client
on_request_complete c session =
    let ec = if session.ec == 0 then 0 else session.ec in
    record c { session = session; pending = none; calls = c.calls ++ (session.response, ec) ∷ [] }

unfoldable pub on_connected : Client → ℕ → Client
unfolding on_request_complete
on_connected c ec =
    let failed = on_request_complete c (record (c.session) { ec = ec }) in
    if ec == 0
    then record c { is_connected = true; pending = some write_request }
    else record failed { is_connected = false }

unfoldable pub on_written : Client → ℕ → Client
unfolding on_request_complete
on_written c ec =
    if ec == 0
    then record c { pending = some read_response }
    else on_request_complete c (record (c.session) { ec = ec })

unfoldable pub on_response_read : Client → ℕ → List ℕ → Client
unfolding on_request_complete getline
on_response_read c ec received =
    if ec == 0
    then on_request_complete c (record (c.session) { response = getline received })
    else on_request_complete c (record (c.session) { ec = ec })

-- How asio answers: the error codes of the three operations, and the bytes read by the last.
pub record Answers : Type 0 where
  pub connect_ec : ℕ
  pub write_ec : ℕ
  pub read_ec : ℕ
  pub received : List ℕ

-- The handler of the operation that has completed.
unfoldable pub completed : Answers → Client → Option Pending → Client
completed r c none = c
completed r c (some connect) = on_connected c r.connect_ec
completed r c (some write_request) = on_written c r.write_ec
completed r c (some read_response) = on_response_read c r.read_ec r.received

-- The pending operation completes, if there is one; so many times.
unfoldable pub run : ℕ → Answers → Client → Client
unfolding completed
run zero r c = c
run (suc n) r c = run n r (completed r c c.pending)

-- The response and the error code that the user should get: the first error, or the line.
abbrev pub outcome : Answers → List ℕ × ℕ
outcome r =
    if r.connect_ec == 0
    then if r.write_ec == 0
      then if r.read_ec == 0 then (getline r.received, 0) else ([], r.read_ec)
      else ([], r.write_ec)
    else ([], r.connect_ec)

abbrev pub IsDone : Client → List ℕ × ℕ → Type 0
IsDone c call = (c.pending ≡ none) × (c.calls ≡ call ∷ [])

run-none : (n : ℕ) (r : Answers) (c : Client) → c.pending ≡ none → run n r c ≡ c
unfolding run
run-none zero r c e = refl
run-none (suc n) r c e = ap (λ p. run n r (completed r c p)) e ∙ run-none n r c e

run_on-IsDone :
    (n : ℕ) (r : Answers) (c : Client) (call : List ℕ × ℕ) → IsDone c call → IsDone (run n r c) call
run_on-IsDone n r c call done = subst (λ d. IsDone d call) (sym (run-none n r c done.0)) done

-- A request that has run to a state where it is over.
concludes :
    (k : ℕ) (r : Answers) (c d : Client) (call : List ℕ × ℕ)
    → c ≡ run k r d
    → IsDone d call
    → outcome r ≡ call
    → IsDone c (outcome r)
concludes k r c d call path done out =
    subst (λ e. IsDone e (outcome r)) (sym path)
      (subst (λ o. IsDone (run k r d) o) (sym out) (run_on-IsDone k r d call done))

abbrev connected : Client → Client
connected c = record c { is_connected = true; pending = some write_request }

abbrev written : Client → Client
written c = record (connected c) { pending = some read_response }

abbrev with_ec : Session → ℕ → Session
with_ec session ec = record session { ec = ec }

-- The session ends with an error.
complete-failed :
    (c : Client) (ec : ℕ)
    → (ec == 0) ≡ false
    → c.calls ≡ []
    → c.session.response ≡ []
    → (on_request_complete c (with_ec c.session ec)).calls ≡ ([], ec) ∷ []
unfolding on_request_complete
complete-failed c ec bad none_yet no_response =
    ap (λ l. l ++ (c.session.response, if ec == 0 then 0 else ec) ∷ []) none_yet
    ∙ ap (λ t. (t, if ec == 0 then 0 else ec) ∷ []) no_response
    ∙ rw bad refl

module _ (n : ℕ) (r : Answers) (before : Bool) (client_name message : List ℕ) where
  abbrev begun : Client
  begun = send_msg before client_name message

  abbrev Concluded : Type 0
  Concluded = IsDone (run (suc (suc (suc n))) r begun) (outcome r)

  refused : (r.connect_ec == 0) ≡ false → Concluded
  unfolding run on_connected send_msg on_request_complete
  refused e =
      let ended = on_request_complete begun (with_ec begun.session r.connect_ec) in
      let last : Client = record ended { is_connected = false } in
      let first : on_connected begun r.connect_ec ≡ last = rw e refl in
      concludes (suc (suc n)) r _ last ([], r.connect_ec) (ap (run (suc (suc n)) r) first)
        (refl, complete-failed begun r.connect_ec e refl refl) (rw e refl)

  reached :
      (r.connect_ec == 0) ≡ true
      → run (suc (suc (suc n))) r begun ≡ run (suc (suc n)) r (connected begun)
  unfolding run on_connected send_msg
  reached e =
      let first : on_connected begun r.connect_ec ≡ connected begun = rw e refl in
      ap (run (suc (suc n)) r) first

  lost : (r.connect_ec == 0) ≡ true → (r.write_ec == 0) ≡ false → Concluded
  unfolding run on_written send_msg on_request_complete
  lost e f =
      let c = connected begun in
      let last = on_request_complete c (with_ec c.session r.write_ec) in
      let second : on_written c r.write_ec ≡ last = rw f refl in
      concludes (suc n) r _ last ([], r.write_ec) (reached e ∙ ap (run (suc n) r) second)
        (refl, complete-failed c r.write_ec f refl refl) (rw (e, f) refl)

  asked :
      (r.connect_ec == 0) ≡ true
      → (r.write_ec == 0) ≡ true
      → run (suc (suc (suc n))) r begun ≡ run (suc n) r (written begun)
  unfolding run on_written
  asked e f =
      let second : on_written (connected begun) r.write_ec ≡ written begun = rw f refl in
      reached e ∙ ap (run (suc n) r) second

  cut_off :
      (r.connect_ec == 0) ≡ true → (r.write_ec == 0) ≡ true → (r.read_ec == 0) ≡ false → Concluded
  unfolding run on_response_read send_msg on_request_complete
  cut_off e f g =
      let c = written begun in
      let last = on_request_complete c (with_ec c.session r.read_ec) in
      let third : on_response_read c r.read_ec r.received ≡ last = rw g refl in
      concludes n r _ last ([], r.read_ec) (asked e f ∙ ap (run n r) third)
        (refl, complete-failed c r.read_ec g refl refl) (rw (e, f, g) refl)

  answered :
      (r.connect_ec == 0) ≡ true → (r.write_ec == 0) ≡ true → (r.read_ec == 0) ≡ true → Concluded
  unfolding run on_response_read send_msg on_request_complete
  answered e f g =
      let c = written begun in
      let line = getline r.received in
      let last = on_request_complete c (record (c.session) { response = line }) in
      let third : on_response_read c r.read_ec r.received ≡ last = rw g refl in
      concludes n r _ last (line, 0) (asked e f ∙ ap (run n r) third) (refl, refl)
        (rw (e, f, g) refl)

  concluded : Concluded
  concluded = elim (Bool-cases (r.connect_ec == 0)) [
    | inr e ↦ refused e
    | inl e ↦ elim (Bool-cases (r.write_ec == 0)) [
      | inr f ↦ lost e f
      | inl f ↦ elim (Bool-cases (r.read_ec == 0)) [
        | inr g ↦ cut_off e f g
        | inl g ↦ answered e f g
      ]
    ]
  ]

-- However asio answers, once three operations at most have completed the request is over, and the
-- user's callback has been called exactly once: with the first error and an empty response, or with
-- no error and the line read.
pub run-IsDone :
    (n : ℕ) (r : Answers) (before : Bool) (client_name message : List ℕ)
    → IsDone (run (3 + n) r (send_msg before client_name message)) (outcome r)
run-IsDone n r before client_name message =
    let e : 3 + n ≡ suc (suc (suc n)) = omega arith in
    subst (λ k. IsDone (run k r (send_msg before client_name message)) (outcome r)) (sym e)
      (concluded n r before client_name message)
