-- ===== src/Server/Running/User.antt =====
-- The state of the derived class, while its server works.
use networking_projects.Prelude.{
  ◌>>=◌, ℕ, ◌-◌, ◌^◌, ◌≡◌, refl, true, subst, List, [], ◌∷◌, Option, none, some, get_elem?, some-eq,
  bind-inverts, Bool-cases, inl, inr,
}
use networking_projects.Message.{Message}
use networking_projects.Connection.{new_connection}
use networking_projects.Connection.Types.{Connection, Platform, Owner}
use networking_projects.Server.{
  Server, Hooks, deref, can_talk, on_accept, message_client, message_all_clients, update,
}
use networking_projects.Server.Broadcast.{reports, message_all_clients_lem}
use networking_projects.Server.Running.{Happening, accepted, completed, happen, happen_all, serve}
use networking_projects.Server.Running.Steps.{Closed, Keeps, completed-Inv, update-Inv}

module _ {T S : Type 0} (platform : Platform T) (hooks : Hooks T S) where
  -- What the overrides keep.
  pub record Respects (P : S → Type 0) : Type 0 where
    pub connects : (u : S) (c : Connection T) → P u → P (hooks.on_client_connect u c).0
    pub disconnects : (u : S) (c : Option (Connection T)) → P u → P (hooks.on_client_disconnect u c)
    pub validates : (u : S) (c : Connection T) → P u → P (hooks.on_client_validated u c).0

  module _ {P : S → Type 0} (laws : Respects P) where
    abbrev pub user_closed : Closed platform hooks (λ s. P s.user)
    user_closed = record {
      replaced = λ s p c c' there same h. h;
      posts = λ s l h. h;
      queues = λ s q h. h;
      hears = λ s c h. laws.validates s.user c h;
    }

    reports-user :
        (heap : List (Connection T)) (u : S) (cs : List (Option ℕ))
        → P u
        → P (reports platform hooks heap u cs)
    reports-user heap u [] h = h
    reports-user heap u (c ∷ cs) h = elim (Bool-cases (can_talk platform hooks heap c)) [
      | inl alive ↦ rw alive (reports-user heap u cs h)
      | inr dead ↦ rw dead (
          reports-user heap (hooks.on_client_disconnect u (deref heap c)) cs
            (laws.disconnects u (deref heap c) h))
    ]

    pub message_client-user :
        (s : Server T S) (client : Option ℕ) (m : Message T)
        → P s.user
        → P (message_client platform hooks s client m).user
    unfolding message_client
    message_client-user s none m h = laws.disconnects s.user none h
    message_client-user s (some p) m h =
        elim (Bool-cases (can_talk platform hooks s.heap (some p))) [
          | inl alive ↦ rw alive h
          | inr dead ↦ rw dead (laws.disconnects s.user (deref s.heap (some p)) h)
        ]

    pub message_all_clients-user :
        (s : Server T S) (m : Message T) (ignore : Option ℕ)
        → P s.user
        → P (message_all_clients platform hooks s m ignore).user
    message_all_clients-user s m ignore h =
        rw (message_all_clients_lem platform hooks s m ignore)
          (reports-user s.heap s.user s.connections h)

    accept-user :
        (s : Server T S) (now : ℕ)
        → P s.user
        → P (on_accept platform hooks s (some (true, now))).user
    unfolding on_accept
    accept-user s now h =
        let newconn = new_connection platform Owner.server true now in
        elim (Bool-cases (hooks.on_client_connect s.user newconn).1) [
          | inl allowed ↦ rw allowed (laws.connects s.user newconn h)
          | inr denied ↦ rw denied (laws.connects s.user newconn h)
        ]

    happen-user :
        (s t : Server T S) (h : Happening T)
        → happen platform hooks s h ≡ some t
        → P s.user
        → P t.user
    unfolding happen on_accept
    happen-user s t (accepted none) e h = subst (λ u. P u.user) (some-eq e) h
    happen-user s t (accepted (some now)) e h =
        subst (λ u. P u.user) (some-eq e) (accept-user s now h)
    happen-user s t (completed p event) e h =
        completed-Inv platform hooks user_closed s t p event (get_elem? s.heap p) refl e h

    happen_all-user :
        (hs : List (Happening T)) (s t : Server T S)
        → happen_all platform hooks s hs ≡ some t
        → P s.user
        → P t.user
    unfolding happen_all
    happen_all-user [] s t e h = subst (λ u. P u.user) (some-eq e) h
    happen_all-user (x ∷ hs) s t e h =
        let (u, first, rest) =
          bind-inverts (happen platform hooks s x) (λ v. happen_all platform hooks v hs) t e in
        happen_all-user hs u t rest (happen-user s u x first h)

    -- Whatever happens, in any order, the derived class's state keeps what its overrides and its
    -- handler of messages keep.
    pub serve-user :
        (on_message : Server T S → Option ℕ → Message T → Option (Server T S))
        → Keeps platform hooks user_closed on_message
        → (turns : List (List (Happening T))) (s t : Server T S)
        → serve platform hooks on_message s turns ≡ some t
        → P s.user
        → P t.user
    unfolding serve
    serve-user on_message keeps [] s t e h = subst (λ u. P u.user) (some-eq e) h
    serve-user on_message keeps (hs ∷ turns) s t e h =
        let (u, first, f) =
          bind-inverts (happen_all platform hooks s hs)
            (λ v. update platform hooks on_message (2 ^ 64 - 1) v >>= λ w.
              serve platform hooks on_message w turns)
            t e in
        let (v, second, last) =
          bind-inverts (update platform hooks on_message (2 ^ 64 - 1) u)
            (λ w. serve platform hooks on_message w turns) t f in
        serve-user on_message keeps turns v t last (
          update-Inv platform hooks user_closed on_message keeps (2 ^ 64 - 1) u v second
            (happen_all-user hs s u first h))
