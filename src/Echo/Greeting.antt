-- ===== src/Echo/Greeting.antt =====
-- A request and its answer, from the client's call to its callback.
use networking_projects.Prelude.{
  ℕ, zero, suc, ◌+◌, ◌%◌, ◌^◌, ◌<◌, ◌≤◌, ◌≡◌, ◌≢◌, refl, sym, ap, subst, ◌∙◌, Bool, List, [], ◌∷◌,
  ◌++◌, append_assoc, some, All-append, arith, length, length-append, take, take-append,
  drop-append, ltb-false,
}
use networking_projects.Echo.Text.{
  newline, semicolon, npos, Lacks, find, substr, pop_back, getline, find-first, find-absent,
  pop_back-append, getline-line,
}
use networking_projects.Echo.Service.{Processed, hello, exclamation, greeting, process_msg}
use networking_projects.Echo.Client.{Answers, request_line, send_msg, run, IsDone, run-IsDone}

substr-front : (a b : List ℕ) (n : ℕ) → n ≡ length a → substr (a ++ b) 0 n ≡ some a
unfolding substr
substr-front a b n e =
    let fits = ltb-false (length (a ++ b)) 0 (omega arith) in rw (fits, e, take-append a b) refl

take-enough : (a : List ℕ) (n : ℕ) → length a ≤ n → take n a ≡ a
take-enough [] zero h = refl
take-enough [] (suc n) h = refl
take-enough (x ∷ a) zero h = absurd (omega arith)
take-enough (x ∷ a) (suc n) h = ap (◌∷◌ x) (take-enough a n (omega arith))

substr-back :
    (a b : List ℕ) (i : ℕ) → i ≡ length a → length b ≤ npos → substr (a ++ b) i npos ≡ some b
unfolding substr
substr-back a b i e h =
    let fits = ltb-false (length (a ++ b)) (length a) (omega (arith, length-append a b)) in
    rw (e, fits, drop-append a b, take-enough b npos h) refl

substr-all : (a : List ℕ) (n : ℕ) → length a ≤ n → substr a 0 n ≡ some a
unfolding substr
substr-all a n h = rw (ltb-false (length a) 0 (omega arith), take-enough a n h) refl

-- The parts of a line.
process_msg-parts :
    (buffer line client_name message : List ℕ)
    → pop_back buffer ≡ some line
    → substr line 0 (find line semicolon) ≡ some client_name
    → substr line ((find line semicolon + 1) % 2 ^ 64) npos ≡ some message
    → process_msg buffer
      ≡ some (record {
        client_name = client_name;
        client_message = message;
        response = greeting client_name;
      })
unfolding process_msg
process_msg-parts buffer line client_name message e f g = rw (e, f, g) refl

-- A line, shorter than `npos`, whose name part has no semicolon: the name is what stands before the first semicolon, and
-- the message all that stands behind it, up to the last character of the buffer.
pub process_msg-line :
    (a b : List ℕ) (c : ℕ)
    → Lacks semicolon a
    → length a + length b < npos
    → process_msg ((a ++ semicolon ∷ b) ++ c ∷ [])
      ≡ some (record { client_name = a; client_message = b; response = greeting a })
process_msg-line a b c h short =
    let at = find-first semicolon a b h in
    let name = substr-front a (semicolon ∷ b) _ at in
    let behind : (find (a ++ semicolon ∷ b) semicolon + 1) % 2 ^ 64 ≡ length (a ++ semicolon ∷ []) =
      omega (arith, at, length-append a (semicolon ∷ [])) in
    let line = append_assoc a (semicolon ∷ []) b in
    let message =
      ap (λ l. substr l ((find (a ++ semicolon ∷ b) semicolon + 1) % 2 ^ 64) npos) (sym line)
      ∙ substr-back (a ++ semicolon ∷ []) b _ behind (omega arith) in
    process_msg-parts _ _ a b (pop_back-append (a ++ semicolon ∷ b) c) name message

-- In a line with no semicolon, shorter than `npos`, `npos` plus one is 0: the whole line is taken for the name, and for the
-- message as well.
pub process_msg-no_delimiter :
    (a : List ℕ) (c : ℕ)
    → Lacks semicolon a
    → length a < npos
    → process_msg (a ++ c ∷ [])
      ≡ some (record { client_name = a; client_message = a; response = greeting a })
process_msg-no_delimiter a c h short =
    let nowhere = find-absent semicolon a h in
    let name = ap (λ n. substr a 0 n) nowhere ∙ substr-all a npos (omega arith) in
    let message =
      ap (λ n. substr a ((n + 1) % 2 ^ 64) npos) nowhere ∙ substr-all a npos (omega arith) in
    process_msg-parts _ a a a (pop_back-append a c) name message

greeting-plain : (a : List ℕ) → Lacks newline a → Lacks newline (hello ++ (a ++ exclamation ∷ []))
greeting-plain a h =
    let last : Lacks newline (exclamation ∷ []) = (λ e. omega arith, tt) in
    let rest = All-append (λ x. x ≢ newline) a (exclamation ∷ []) h last in
    (
      λ e. omega arith,
      (
        λ e. omega arith,
        (λ e. omega arith, (λ e. omega arith, (λ e. omega arith, (λ e. omega arith, rest)))),
      ),
    )

-- Every operation succeeds, and these bytes are read.
abbrev pub all_well : List ℕ → Answers
all_well received = record { connect_ec = 0; write_ec = 0; read_ec = 0; received = received }

-- The whole exchange, when every operation succeeds and a name and a message of ordinary length
-- have no newline, and the name no semicolon: the server reads the name and the message as they were
-- given, and the client's callback is called once, without an error, with the greeting less its
-- newline.
pub run-greets :
    (n : ℕ) (before : Bool) (client_name message : List ℕ)
    → Lacks semicolon client_name
    → Lacks newline client_name
    → length client_name + length message < npos
    → let processed : Processed = record {
      client_name = client_name;
      client_message = message;
      response = greeting client_name;
    } in
      (process_msg (request_line client_name message) ≡ some processed)
      × IsDone
          (run (3 + n) (all_well (greeting client_name)) (send_msg before client_name message))
          (hello ++ (client_name ++ exclamation ∷ []), 0)
unfolding request_line greeting
run-greets n before client_name message no_semicolon no_newline short =
    let name_end = client_name ++ exclamation ∷ [] in
    let line = ap (◌++◌ hello) (sym (append_assoc client_name (exclamation ∷ []) (newline ∷ []))) in
    let heard : getline (greeting client_name) ≡ hello ++ name_end =
      ap getline line
      ∙ getline-line (hello ++ name_end) [] (greeting-plain client_name no_newline) in
    (
      ap process_msg (sym (append_assoc client_name (semicolon ∷ message) (newline ∷ [])))
          ∙ process_msg-line client_name message newline no_semicolon short,
      subst
          (λ l.
            IsDone
              (run (3 + n) (all_well (greeting client_name)) (send_msg before client_name message))
              (l, 0))
          heard (run-IsDone n (all_well (greeting client_name)) before client_name message),
    )
