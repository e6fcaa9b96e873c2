-- ===== src/Server.antt =====
-- MMO_Game/include/olcPGEX_Network/server_interface.h. Connection objects live on a heap and a
-- shared pointer is an address or null. What the class that derives from ServerInterface keeps is
-- the type `S`; its overrides are the record `Hooks`, and `OnMessage` an argument of `update`.
-- Work handed to asio is listed in `posted`, in order, with the connection that it belongs to.
pub mod Broadcast
pub mod Identity
pub mod Intake
pub mod Running
mod Tests
use networking_projects.Prelude.{
  ◌>>=◌, ℕ, zero, suc, ◌+◌, ◌%◌, ◌^◌, Bool, true, false, List, [], ◌∷◌, ◌++◌, map, Option, none,
  some, ◌==◌, if◌then◌else◌, length, get_elem?,
}
use networking_projects.Queue
use networking_projects.Queue.{Queue}
use networking_projects.Message.{Message}
use networking_projects.Connection.{new_connection, is_connected, connect_to_client, send}
use networking_projects.Connection.Types.{
  Connection, OwnedMessage, Platform, Owner, Action, post_send, enqueue, client_validated,
}

pub record Server (T S : Type 0) : Type 0 where
  pub messages_in : Queue (OwnedMessage T)
  pub connections : List (Option ℕ)
  pub id_counter : ℕ
  -- An `async_accept` is pending.
  pub accepting : Bool
  -- The context's thread runs.
  pub running : Bool
  -- Every connection made so far, by its address.
  pub heap : List (Connection T)
  pub posted : List (ℕ × Action T)
  pub user : S

-- The virtual functions, as far as the derived classes use them: they read the connection and change
-- what the derived class keeps. `on_client_validated` also gives the messages that it sends back.
pub record Hooks (T S : Type 0) : Type 0 where
  pub on_client_connect : S → Connection T → S × Bool
  pub on_client_disconnect : S → Option (Connection T) → S
  pub on_client_validated : S → Connection T → S × List (Message T)

-- What a pointer points to.
abbrev pub deref : {T : Type 0} → List (Connection T) → Option ℕ → Option (Connection T)
deref heap none = none
deref heap (some p) = get_elem? heap p

-- `client == other`, of shared pointers.
abbrev pub same : Option ℕ → Option ℕ → Bool
same none none = true
same none (some q) = false
same (some p) none = false
same (some p) (some q) = p == q

-- `erase(remove(begin, end, client), end)`.
unfoldable pub erase : Option ℕ → List (Option ℕ) → List (Option ℕ)
erase client [] = []
erase client (p ∷ ps) = let rest = erase client ps in if same p client then rest else p ∷ rest

module _ {T S : Type 0} (platform : Platform T) (hooks : Hooks T S) where
  unfoldable pub new_server : S → Server T S
  new_server user = record {
    messages_in = Queue.no_items;
    connections = [];
    id_counter = 10000;
    accepting = false;
    running = false;
    heap = [];
    posted = [];
    user = user;
  }

  -- `client && client->IsConnected()`.
  unfoldable pub can_talk : List (Connection T) → Option ℕ → Bool
  can_talk heap client = elim (deref heap client) [
    | none ↦ false
    | some c ↦ is_connected platform c
  ]

  post : Server T S → Option ℕ → List (Action T) → Server T S
  post s none actions = s
  post s (some p) actions = record s { posted = s.posted ++ map (λ a. (p, a)) actions }

  unfoldable pub wait_for_client_connection : Server T S → Server T S
  wait_for_client_connection s = record s { accepting = true }

  unfoldable pub start : Server T S → Server T S × Bool
  unfolding wait_for_client_connection
  start s = (record (wait_for_client_connection s) { running = true }, true)

  -- The context's thread, if there is one, has been joined.
  unfoldable pub stop : Server T S → Server T S
  stop s = if s.running then record s { running = false } else s

  unfoldable pub destroy : Server T S → Server T S
  unfolding stop
  destroy s = stop s

  -- Connection allowed: into the container, and the handshake begins.
  approve : Server T S → Connection T → Server T S
  unfolding post
  approve s newconn =
      let p = length s.heap in
      let (c, actions) = connect_to_client platform newconn s.id_counter in
      post
        (record s {
          heap = s.heap ++ c ∷ [];
          connections = s.connections ++ some p ∷ [];
          id_counter = (s.id_counter + 1) % 2 ^ 32;
        })
        (some p) actions

  -- The lambda of `async_accept`: an error, or a socket that is open or no longer is, and the time.
  unfoldable pub on_accept : Server T S → Option (Bool × ℕ) → Server T S
  unfolding approve wait_for_client_connection
  on_accept s none = wait_for_client_connection s
  on_accept s (some (is_open, now)) =
      let newconn = new_connection platform Owner.server is_open now in
      let (user, allowed) = hooks.on_client_connect s.user newconn in
      let s' = record s { user = user } in
      wait_for_client_connection
        (if allowed then approve s' newconn else record s' { heap = s.heap ++ newconn ∷ [] })

  -- A dead client is reported; the local pointer is reset before the container is searched for it.
  unfoldable pub message_client : Server T S → Option ℕ → Message T → Server T S
  unfolding can_talk post
  message_client s client msg =
      let lost = record s {
        user = hooks.on_client_disconnect s.user (deref s.heap client);
        connections = erase none s.connections;
      } in
      if can_talk s.heap client then post s client (send platform msg) else lost

  -- The loop of `MessageAllClients` over what is left of the container, which it writes back.
  each_client :
      Server T S → List (Option ℕ) → Message T → Option ℕ → Server T S × List (Option ℕ) × Bool
  unfolding can_talk post
  each_client s [] msg ignore = (s, [], false)
  each_client s (client ∷ clients) msg ignore =
      let alive = can_talk s.heap client in
      let told = if same client ignore then s else post s client (send platform msg) in
      let lost = record s { user = hooks.on_client_disconnect s.user (deref s.heap client) } in
      let (s', rest, invalid) = each_client (if alive then told else lost) clients msg ignore in
      if alive then (s', client ∷ rest, invalid) else (s', none ∷ rest, true)

  unfoldable pub message_all_clients : Server T S → Message T → Option ℕ → Server T S
  unfolding each_client
  message_all_clients s msg ignore =
      let (s', clients, invalid) = each_client s s.connections msg ignore in
      if invalid
      then record s' { connections = erase none clients }
      else record s' { connections = clients }

  -- `none` from the handler is undefined behaviour. The count of messages is the recursion: at most
  -- `max` rounds, none when the queue is empty.
  unfoldable pub update :
      (Server T S → Option ℕ → Message T → Option (Server T S))
      → ℕ
      → Server T S
      → Option (Server T S)
  update on_message zero s = some s
  update on_message (suc max) s = elim (Queue.pop s.messages_in) [
    | none ↦ some s
    | some (owned, rest) ↦
        on_message (record s { messages_in = rest }) owned.remote owned.msg >>= λ t.
        update on_message max t
  ]

  -- `server->OnClientValidated(shared_from_this())`.
  validated : ℕ → Server T S → Option (Connection T) → Server T S
  validated p s none = s
  validated p s (some c) =
      let (user, replies) = hooks.on_client_validated s.user c in
      record s { user = user; posted = s.posted ++ map (λ m. (p, post_send m)) replies }

  -- What a handler of the connection at `p` asks of the server: `Push` on the incoming queue,
  -- `OnClientValidated`, and work for asio.
  unfoldable pub perform : ℕ → Server T S → List (Action T) → Server T S
  unfolding post validated
  perform p s [] = s
  perform p s (enqueue m ∷ actions) =
      perform p (record s { messages_in = Queue.push s.messages_in m }) actions
  perform p s (client_validated ∷ actions) = perform p (validated p s (get_elem? s.heap p)) actions
  perform p s (other ∷ actions) = perform p (post s (some p) (other ∷ [])) actions
