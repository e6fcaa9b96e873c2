-- ===== src/Server/Broadcast.antt =====
-- `MessageAllClients` and `MessageClient` against a description by the state of each client.
use mathlib.Core.Path.{ap₂}
use networking_projects.Prelude.{
  ℕ, ◌≡◌, ◌≢◌, refl, sym, ap, ◌∙◌, ◌⊎◌, inl, inr, true, false, not, ◌&&◌, List, [], ◌∷◌, ◌++◌, map,
  append-nil, append_assoc, Option, none, some, All, Bool-cases, get_elem?, true≢false,
  if◌then◌else◌,
}
use networking_projects.Message.{Message}
use networking_projects.Connection.{send, is_connected}
use networking_projects.Connection.Types.{Connection, Platform, Action, post_send}
use networking_projects.Server.{
  Server, Hooks, deref, same, erase, can_talk, each_client, message_all_clients, message_client,
}

module _ {T S : Type 0} (platform : Platform T) (hooks : Hooks T S) where
  -- The clients that a broadcast is for: those that are connected, but for the ignored one.
  abbrev pub recipients : List (Connection T) → Option ℕ → List (Option ℕ) → List ℕ
  recipients heap ignore [] = []
  recipients heap ignore (none ∷ cs) = recipients heap ignore cs
  recipients heap ignore (some p ∷ cs) =
      let rest = recipients heap ignore cs in
      if can_talk platform hooks heap (some p) && not (same (some p) ignore) then p ∷ rest else rest

  abbrev pub survivors : List (Connection T) → List (Option ℕ) → List (Option ℕ)
  survivors heap [] = []
  survivors heap (c ∷ cs) =
      let rest = survivors heap cs in if can_talk platform hooks heap c then c ∷ rest else rest

  -- The derived class hears of every client that is not connected, in order.
  abbrev pub reports : List (Connection T) → S → List (Option ℕ) → S
  reports heap user [] = user
  reports heap user (c ∷ cs) =
      reports heap
        (if can_talk platform hooks heap c
          then user
          else hooks.on_client_disconnect user (deref heap c))
        cs

  abbrev pub sends_to : Message T → List ℕ → List (ℕ × Action T)
  sends_to msg = map (λ p. (p, post_send msg))

  abbrev pub broadcast : Server T S → Message T → Option ℕ → List (Option ℕ) → Server T S
  broadcast s msg ignore cs = record s {
    posted = s.posted ++ sends_to msg (recipients s.heap ignore cs);
    user = reports s.heap s.user cs;
  }

  abbrev with_connections : Server T S → List (Option ℕ) → Server T S
  with_connections s cs = record s { connections = cs }

  each_client-broadcast :
      (cs : List (Option ℕ)) (s : Server T S) (msg : Message T) (ignore : Option ℕ)
      → (each_client platform hooks s cs msg ignore).0 ≡ broadcast s msg ignore cs
  unfolding message_all_clients send
  each_client-broadcast [] s msg ignore =
      ap (λ l. record s { posted = l }) (sym (append-nil s.posted))
  each_client-broadcast (none ∷ cs) s msg ignore =
      each_client-broadcast cs (record s { user = hooks.on_client_disconnect s.user none }) msg
        ignore
  each_client-broadcast (some p ∷ cs) s msg ignore =
      elim (Bool-cases (can_talk platform hooks s.heap (some p))) [
        | inl alive ↦ elim (Bool-cases (same (some p) ignore)) [
          | inl skip ↦ rw (alive, skip) (each_client-broadcast cs s msg ignore)
          | inr send ↦
              let told = record s { posted = s.posted ++ (p, post_send msg) ∷ [] } in
              rw (alive, send)
                (each_client-broadcast cs told msg ignore
                  ∙ ap (λ l. record s { posted = l; user = reports s.heap s.user cs })
                      (append_assoc s.posted ((p, post_send msg) ∷ [])
                        (sends_to msg (recipients s.heap ignore cs))))
        ]
        | inr dead ↦
            let lost = record s {
              user = hooks.on_client_disconnect s.user (deref s.heap (some p));
            } in
            rw dead (each_client-broadcast cs lost msg ignore)
      ]

  each_client-erase :
      (cs : List (Option ℕ)) (s : Server T S) (msg : Message T) (ignore : Option ℕ)
      → erase none (each_client platform hooks s cs msg ignore).1 ≡ survivors s.heap cs
  unfolding message_all_clients send erase
  each_client-erase [] s msg ignore = refl
  each_client-erase (none ∷ cs) s msg ignore =
      each_client-erase cs (record s { user = hooks.on_client_disconnect s.user none }) msg ignore
  each_client-erase (some p ∷ cs) s msg ignore =
      elim (Bool-cases (can_talk platform hooks s.heap (some p))) [
        | inl alive ↦ elim (Bool-cases (same (some p) ignore)) [
          | inl skip ↦ rw (alive, skip) (ap (◌∷◌ (some p)) (each_client-erase cs s msg ignore))
          | inr send ↦
              let told = record s { posted = s.posted ++ (p, post_send msg) ∷ [] } in
              rw (alive, send) (ap (◌∷◌ (some p)) (each_client-erase cs told msg ignore))
        ]
        | inr dead ↦
            let lost = record s {
              user = hooks.on_client_disconnect s.user (deref s.heap (some p));
            } in
            rw dead (each_client-erase cs lost msg ignore)
      ]

  -- Where the loop found no dead client it wrote none back, so there is nothing to erase.
  each_client-all_alive :
      (cs : List (Option ℕ)) (s : Server T S) (msg : Message T) (ignore : Option ℕ)
      → (each_client platform hooks s cs msg ignore).2 ≡ false
      → erase none (each_client platform hooks s cs msg ignore).1
        ≡ (each_client platform hooks s cs msg ignore).1
  unfolding message_all_clients send erase
  each_client-all_alive [] s msg ignore h = refl
  each_client-all_alive (none ∷ cs) s msg ignore h = absurd (true≢false h)
  each_client-all_alive (some p ∷ cs) s msg ignore h =
      elim (Bool-cases (can_talk platform hooks s.heap (some p))) [
        | inl alive ↦
            let told =
              if same (some p) ignore
              then s
              else record s { posted = s.posted ++ (p, post_send msg) ∷ [] } in
            rw alive (ap (◌∷◌ (some p)) (each_client-all_alive cs told msg ignore (rw alive at h)))
        | inr dead ↦ absurd (true≢false (rw dead at h))
      ]

  -- A broadcast posts the message to every client of the container that is connected, but for the
  -- ignored one, in the container's order; reports every other client to the derived class; and
  -- keeps in the container exactly the connected ones, in order. Nothing else changes.
  pub message_all_clients_lem :
      (s : Server T S) (msg : Message T) (ignore : Option ℕ)
      → message_all_clients platform hooks s msg ignore ≡ record s {
        posted = s.posted ++ sends_to msg (recipients s.heap ignore s.connections);
        user = reports s.heap s.user s.connections;
        connections = survivors s.heap s.connections;
      }
  unfolding message_all_clients
  message_all_clients_lem s msg ignore =
      let told = each_client-broadcast s.connections s msg ignore in
      let kept = each_client-erase s.connections s msg ignore in
      elim (Bool-cases (each_client platform hooks s s.connections msg ignore).2) [
        | inl lost ↦ rw lost (ap₂ with_connections told kept)
        | inr alive ↦
            let whole = sym (each_client-all_alive s.connections s msg ignore alive) in
            rw alive (ap₂ with_connections told (whole ∙ kept))
      ]

  erase-none : (cs : List (Option ℕ)) → All (λ c. c ≢ none) cs → erase none cs ≡ cs
  unfolding erase
  erase-none [] h = refl
  erase-none (none ∷ cs) h = absurd (h.0 refl)
  erase-none (some p ∷ cs) h = ap (◌∷◌ (some p)) (erase-none cs h.1)

  pub message_client-alive :
      (s : Server T S) (p : ℕ) (msg : Message T)
      → can_talk platform hooks s.heap (some p) ≡ true
      → message_client platform hooks s (some p) msg
        ≡ record s { posted = s.posted ++ sends_to msg (p ∷ []) }
  unfolding message_client send
  message_client-alive s p msg alive = rw alive

  pub can_talk-open :
      (heap : List (Connection T)) (p : ℕ) (c : Connection T)
      → get_elem? heap p ≡ some c
      → c.socket_open ≡ true
      → can_talk platform hooks heap (some p) ≡ true
  unfolding can_talk is_connected
  can_talk-open heap p c e open_socket = rw (e, can_talk) open_socket

  -- A message to a connected client is posted to it, and nothing else changes. A message to any other
  -- client is only reported to the derived class: the client stays in the container, which holds no
  -- null pointer, though the comment in the code says that it is removed.
  pub message_client_lem :
      (s : Server T S) (client : Option ℕ) (msg : Message T)
      → All (λ c. c ≢ none) s.connections
      → ((p : ℕ) × (client ≡ some p)
          × (can_talk platform hooks s.heap client ≡ true)
          × (message_client platform hooks s client msg
              ≡ record s { posted = s.posted ++ sends_to msg (p ∷ []) }))
        ⊎ ((can_talk platform hooks s.heap client ≡ false)
            × (message_client platform hooks s client msg
                ≡ record s { user = hooks.on_client_disconnect s.user (deref s.heap client) }))
  unfolding message_client send
  message_client_lem s none msg h = inr (
    refl,
    ap (with_connections (record s { user = hooks.on_client_disconnect s.user none }))
        (erase-none s.connections h),
  )
  message_client_lem s (some p) msg h =
      elim (Bool-cases (can_talk platform hooks s.heap (some p))) [
        | inl alive ↦ inl (p, refl, alive, rw alive)
        | inr dead ↦
            let lost = record s {
              user = hooks.on_client_disconnect s.user (deref s.heap (some p));
            } in
            inr (dead, rw dead (ap (with_connections lost) (erase-none s.connections h)))
      ]
