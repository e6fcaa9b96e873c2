-- ===== src/Echo/Service.antt =====
-- src/server/service.cpp: one client's request and its answer. Every handler gives what it asks of
-- asio, in order, and whether the object destroys itself; `none` is an exception or undefined.
use networking_projects.Prelude.{
  ◌>>=◌, ℕ, ◌+◌, ◌%◌, ◌^◌, Bool, true, false, List, [], ◌∷◌, ◌++◌, Option, some,
}
use networking_projects.Echo.Text.{newline, semicolon, npos, find, substr, pop_back}

pub record Service : Type 0 where
  -- `m_request_`: all that has been read from the socket.
  pub request : List ℕ
  pub response : List ℕ

unfoldable pub new_service : Service
new_service = record { request = []; response = [] }

pub data Action : Type 0 where
  read_until_newline : Action
  write : List ℕ → Action
  destroy : Action

-- What `ProcessMsg` prints, and what it returns.
pub record Processed : Type 0 where
  pub client_name : List ℕ
  pub client_message : List ℕ
  pub response : List ℕ

-- "Hello "
abbrev pub hello : List ℕ
hello = 72 ∷ 101 ∷ 108 ∷ 108 ∷ 111 ∷ 32 ∷ []

-- "!"
abbrev pub exclamation : ℕ
exclamation = 33

unfoldable pub greeting : List ℕ → List ℕ
greeting client_name = hello ++ (client_name ++ exclamation ∷ newline ∷ [])

unfoldable pub process_msg : List ℕ → Option Processed
unfolding find substr pop_back greeting
process_msg buffer = do
  message ← pop_back buffer
  client_name ← substr message 0 (find message semicolon)
  client_message ← substr message ((find message semicolon + 1) % 2 ^ 64) npos
  some (record {
    client_name = client_name;
    client_message = client_message;
    response = greeting client_name;
  })

unfoldable pub start_handling : List Action
start_handling = read_until_newline ∷ []

unfoldable pub on_finish : List Action
on_finish = destroy ∷ []

unfoldable pub on_request_received : Service → Bool → Option (Service × List Action)
unfolding process_msg on_finish
on_request_received s false = some (s, on_finish)
on_request_received s true = do
  processed ← process_msg s.request
  some (record s { response = processed.response }, write processed.response ∷ [])

-- An error is only printed.
unfoldable pub on_response_sent : Bool → List Action
unfolding on_finish
on_response_sent ok = on_finish
