-- ===== src/Echo/Program.antt =====
-- src/run_tcp_client.cpp, and the constructor and Close of src/client/client.cpp: the program that sends
-- the same request again and again while it is connected. The requests run side by side.
pub mod Requests
pub mod Closing
mod Tests
use networking_projects.Prelude.{
  ◌>>=◌, ℕ, zero, suc, ◌+◌, ◌-◌, ◌*◌, ◌%◌, ◌^◌, Bool, true, false, ◌&&◌, ◌||◌, not, List, [], ◌∷◌,
  ◌++◌, Option, none, some, ◌==◌, if◌then◌else◌, ltb, length, get_elem?, set, drop, codes,
  to_string,
}
use networking_projects.Prelude.Int.{ℤ, pos, negsuc}
use networking_projects.Echo.Text.{newline}
use networking_projects.Echo.Client
use networking_projects.Echo.Client.{Client, Answers, send_msg, completed}

-- `std::isspace` and `std::isdigit`.
abbrev pub is_space : ℕ → Bool
is_space c = c == 32 || (ltb 8 c && ltb c 14)

abbrev pub is_digit : ℕ → Bool
is_digit c = ltb 47 c && ltb c 58

-- The number that the digits at the front make up, behind the number so far.
abbrev pub leading : ℕ → List ℕ → ℕ
leading n [] = n
leading n (c ∷ cs) = let more = leading (n * 10 + (c - 48)) cs in if is_digit c then more else n

-- With its sign, unless an int cannot hold it.
abbrev pub in_int : Bool → ℕ → Option ℤ
in_int true zero = some (pos 0)
in_int true (suc n) = if ltb n (2 ^ 31) then some (negsuc n) else none
in_int false n = if ltb n (2 ^ 31) then some (pos n) else none

-- `std::atoi`, undefined on a number that is no int.
unfoldable pub atoi : List ℕ → Option ℤ
atoi [] = some (pos 0)
atoi (c ∷ cs) =
    let later = atoi cs in
    if is_space c
    then later
    else if c == b'-'
    then in_int true (leading 0 cs)
    else if c == b'+'
    then in_int false (leading 0 cs)
    else in_int false (leading 0 (c ∷ cs))

-- The conversion to an unsigned type of `w` bits.
unfoldable pub to_unsigned : ℕ → ℤ → ℕ
to_unsigned w (pos n) = n % 2 ^ w
to_unsigned w (negsuc n) = 2 ^ w - 1 - n % 2 ^ w

-- `argv`, without the program's name.
pub record Arguments : Type 0 where
  pub ip : List ℕ
  pub port : List ℕ
  pub name : List ℕ
  pub sleep_time : List ℕ

-- What the program keeps: its client's flag and work object, the requests, the terminal, the port that
-- every request goes to, and for how long the program sleeps.
pub record Program : Type 0 where
  pub is_connected : Bool
  pub has_work : Bool
  pub sessions : List Client
  pub terminal : List ℕ
  pub port : ℕ
  pub seconds : ℕ

unfoldable pub print_client_info : Arguments → List ℕ
print_client_info a =
    codes "Client Info:"
    ++ newline
      ∷ (codes "IP:             "
          ++ (a.ip
              ++ newline
                ∷ (codes "Port:           "
                    ++ (a.port
                        ++ newline
                          ∷ (codes "Name:           "
                              ++ (a.name
                                  ++ newline
                                    ∷ (codes "Sleep Time:     "
                                        ++ (a.sleep_time ++ newline ∷ []))))))))

unfoldable pub print_client_msg : List ℕ → List ℕ → List ℕ
print_client_msg name msg =
    codes "Message  : " ++ (name ++ (codes " said: " ++ (msg ++ newline ∷ [])))

unfoldable pub usage : List ℕ
usage =
    codes "Error: missing command Line arguments"
    ++ newline
      ∷ (codes "Usage:"
          ++ newline
            ∷ (codes "./run_tcp_client <ip-address-name> <port-number> <client-name>"
                ++ newline ∷ []))

abbrev pub hello_server : List ℕ
hello_server = codes "Hello Server!"

-- How the program ends: with an exit code, by `std::terminate`, or not yet.
pub data Outcome : Type 0 where
  exited : ℕ → List ℕ → Outcome
  terminated : Outcome
  goes_on : Program → Outcome

-- An operation of the request at this place has completed, with these answers.
pub record Event : Type 0 where
  pub place : ℕ
  pub answers : Answers

-- No request is under way.
abbrev pub over : List Client → Bool
over [] = true
over (c ∷ cs) = elim c.pending [ none ↦ over cs | some op ↦ false ]

-- `m_work_.reset(NULL)`.
abbrev pub destroy_work : Program → Program
destroy_work p = record p { has_work = false }

-- The thread's event loop has something to run or to wait for.
abbrev pub has_more : Program → Bool
has_more p = p.has_work || not (over p.sessions)

-- The text of an error code is the library's; so is the verdict on an address, 0 for a good one.
module _ (message : ℕ → List ℕ) (address_ec : List ℕ → ℕ) where
  -- The user's callback.
  unfoldable pub handler : List ℕ → ℕ → List ℕ
  handler response ec =
      if ec == 0
      then codes "[Client] Request has completed. Server said: '"
        ++ (response ++ 39 ∷ newline ∷ newline ∷ [])
      else codes "Request"
        ++ (codes " failed! Error code = "
            ++ (to_string ec ++ (codes ". Error message = " ++ (message ec ++ newline ∷ []))))

  abbrev pub handle_calls : List (List ℕ × ℕ) → List ℕ
  handle_calls [] = []
  handle_calls ((response, ec) ∷ calls) = handler response ec ++ handle_calls calls

  -- A completion at one request; the flag is the client's.
  unfoldable pub on_event : Program → Event → Program
  unfolding handler
  on_event p e = elim (get_elem? p.sessions e.place) [
    | none ↦ p
    | some c ↦
        let c' = completed e.answers (record c { is_connected = p.is_connected }) c.pending in
        record p {
          is_connected = c'.is_connected;
          sessions = set p.sessions e.place c';
          terminal = p.terminal ++ handle_calls (drop (length c.calls) c'.calls);
        }
  ]

  unfoldable pub on_events : Program → List Event → Program
  on_events p [] = p
  on_events p (e ∷ es) = on_events (on_event p e) es

  -- `client.SendMsg`, after the message was printed.
  unfoldable pub request : List ℕ → Program → Program
  unfolding print_client_msg
  request name p = record p {
    sessions = p.sessions ++ send_msg p.is_connected name hello_server ∷ [];
    terminal = p.terminal ++ print_client_msg name hello_server;
  }

  -- The loop, and whether it has ended: what happens during each sleep is a list of events.
  unfoldable pub requests : List ℕ → List (List Event) → Program → Program × Bool
  unfolding request on_events
  requests name [] p = (p, false)
  requests name (es ∷ sleeps) p =
      let p' = on_events (request name p) es in
      let (q, ended) = requests name sleeps p' in if p'.is_connected then (q, ended) else (p', true)

  -- `Close` destroys the work object and waits for the thread, whose loop has not ended as long as there
  -- is a work object or a request is under way.
  unfoldable pub close : Program → List Event → Outcome
  unfolding on_events
  close p es =
      let q = on_events (destroy_work p) es in if has_more q then goes_on q else exited 0 q.terminal

  -- The program with its arguments: a bad address makes the first request throw, and the client is
  -- destroyed while its thread can be joined, which ends in `std::terminate`.
  unfoldable pub run_client : Arguments → List (List Event) → List Event → Option Outcome
  unfolding requests close print_client_info atoi to_unsigned
  run_client a sleeps es = do
    port ← atoi a.port
    time ← atoi a.sleep_time
    let p : Program = record {
      is_connected = false;
      has_work = true;
      sessions = [];
      terminal = print_client_info a;
      port = to_unsigned 16 port;
      seconds = to_unsigned 32 time;
    }
    let (q, ended) = requests a.name sleeps p
    some (if address_ec a.ip == 0 then if ended then close q es else goes_on q else terminated)

  -- `main`: none of the arguments is looked at when there are not four.
  unfoldable pub main : List (List ℕ) → List (List Event) → List Event → Option Outcome
  unfolding run_client usage
  main (ip ∷ port ∷ name ∷ sleep_time ∷ []) sleeps es =
      run_client (record { ip = ip; port = port; name = name; sleep_time = sleep_time }) sleeps es
  main _ sleeps es = some (exited 0 usage)
