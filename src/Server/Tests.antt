-- ===== src/Server/Tests.antt =====
-- A server with a connected client, one that has gone, and a derived class that counts departures.
use networking_projects.Prelude.{
  ℕ, ◌+◌, ◌≡◌, ◌⊎◌, refl, true, false, List, [], ◌∷◌, ◌++◌, Option, none, some, arith, drop,
}
use networking_projects.Message.{Message}
use networking_projects.Message.Laws.{sized}
use networking_projects.Message.LittleEndian.{unsigned}
use networking_projects.Connection.Types.{Connection, OwnedMessage, Platform, server}
use networking_projects.Connection.Sample.{sample}
use networking_projects.Server.{
  Server, Hooks, deref, new_server, can_talk, message_client, message_all_clients, update,
}
use networking_projects.Server.Broadcast.{
  recipients, survivors, reports, sends_to, message_all_clients_lem, message_client_lem,
}
use networking_projects.Server.Identity.{
  Call, accepts, accept_fails, tells, tells_all, run, IsNumbered, run-IsNumbered,
}
use networking_projects.Server.Intake.{IsQuiet, update-drop}

abbrev platform : Platform ℕ
platform = sample (unsigned 4) 0

abbrev hooks : Hooks ℕ ℕ
hooks = record {
  on_client_connect = λ n c. (n, true);
  on_client_disconnect = λ n c. n + 1;
  on_client_validated = λ n c. (n, []);
}

abbrev gone : Connection ℕ
gone = record {
  socket_open = false;
  messages_out = record { items = [] };
  msg_temporary_in = sized 0 [];
  owner_type = server;
  handshake_out = 5;
  handshake_in = 0;
  handshake_check = 0;
  valid_handshake = false;
  connection_established = false;
  id = 10_000;
}

abbrev present : Connection ℕ
present = record gone { socket_open = true; id = 10_001 }

abbrev ping : Message ℕ
ping = sized 1 (4 ∷ [])

abbrev received : OwnedMessage ℕ
received = record { remote = some 1; msg = ping }

abbrev state : Server ℕ ℕ
state = record {
  messages_in = record { items = received ∷ received ∷ received ∷ [] };
  connections = some 0 ∷ some 1 ∷ [];
  id_counter = 10_002;
  accepting = true;
  running = true;
  heap = gone ∷ present ∷ [];
  posted = [];
  user = 0;
}

message_all_clients_lem_example :
    message_all_clients platform hooks state ping none ≡ record state {
      posted =
          state.posted
          ++ sends_to platform hooks ping
              (recipients platform hooks state.heap none state.connections);
      user = reports platform hooks state.heap state.user state.connections;
      connections = survivors platform hooks state.heap state.connections;
    }
message_all_clients_lem_example = message_all_clients_lem platform hooks state ping none

message_client_lem_example :
    ((p : ℕ) × (some 0 ≡ some p)
      × (can_talk platform hooks state.heap (some 0) ≡ true)
      × (message_client platform hooks state (some 0) ping
          ≡ record state { posted = state.posted ++ sends_to platform hooks ping (p ∷ []) }))
    ⊎ ((can_talk platform hooks state.heap (some 0) ≡ false)
        × (message_client platform hooks state (some 0) ping ≡ record state {
          user = hooks.on_client_disconnect state.user (deref state.heap (some 0));
        }))
message_client_lem_example =
    message_client_lem platform hooks state (some 0) ping (λ p. cc, (λ p. cc, tt))

abbrev calls : List (Call platform hooks)
calls = accepts 5 ∷ accept_fails ∷ accepts 6 ∷ tells (some 0) ping ∷ tells_all ping none ∷ []

no_two_alike : IsNumbered platform hooks (run platform hooks (new_server platform hooks 0) calls)
no_two_alike = run-IsNumbered platform hooks 0 calls (omega arith)

-- A handler that only counts.
abbrev tally : Server ℕ ℕ → Option ℕ → Message ℕ → Option (Server ℕ ℕ)
tally s remote m = some (record s { user = s.user + 1 })

tally-IsQuiet : IsQuiet platform hooks tally
tally-IsQuiet s remote m = (record s { user = s.user + 1 }, refl, refl)

flood_dropped :
    (t : Server ℕ ℕ) × (update platform hooks tally 2 state ≡ some t)
    × (t.messages_in.items ≡ drop 2 state.messages_in.items)
flood_dropped = update-drop platform hooks tally 2 state tally-IsQuiet
