-- ===== src/Server/Running/Steps.antt =====
-- What a server at work keeps: whatever the writing back of a connection, the work for asio, the incoming
-- queue and `OnClientValidated` keep, and the handler of messages keeps.
use networking_projects.Prelude.{
  ◌>>=◌, ℕ, zero, suc, ◌≡◌, subst, List, [], ◌∷◌, Option, none, some, get_elem?, set, some-eq,
  bind-inverts,
}
use networking_projects.Queue
use networking_projects.Message.{Message}
use networking_projects.Connection.Types.{
  Connection, OwnedMessage, Platform, Action, write, read, connect, post_send, post_close, enqueue,
  client_validated,
}
use networking_projects.Server.{Server, Hooks, perform, validated, update}
use networking_projects.Server.Running.{Completion, handle, absorb}
use networking_projects.Server.Running.Handlers.{KeepsId, handle-KeepsId}

module _ {T S : Type 0} (platform : Platform T) (hooks : Hooks T S) where
  -- A property of the server that each of its own steps keeps. No handler of a connection changes the
  -- connection's identifier.
  pub record Closed (Inv : Server T S → Type 0) : Type 0 where
    pub replaced :
        (s : Server T S) (p : ℕ) (c c' : Connection T)
        → get_elem? s.heap p ≡ some c
        → c'.id ≡ c.id
        → Inv s
        → Inv (record s { heap = set s.heap p c' })
    pub posts : (s : Server T S) (l : List (ℕ × Action T)) → Inv s → Inv (record s { posted = l })
    pub queues :
        (s : Server T S) (q : Queue.Queue (OwnedMessage T))
        → Inv s
        → Inv (record s { messages_in = q })
    pub hears :
        (s : Server T S) (c : Connection T)
        → Inv s
        → Inv (record s { user = (hooks.on_client_validated s.user c).0 })

  module _ {Inv : Server T S → Type 0} (laws : Closed Inv) where
    validated-Inv :
        (p : ℕ) (s : Server T S) (o : Option (Connection T))
        → Inv s
        → Inv (validated platform hooks p s o)
    unfolding validated
    validated-Inv p s none h = h
    validated-Inv p s (some c) h = laws.posts _ _ (laws.hears s c h)

    perform-Inv :
        (p : ℕ) (s : Server T S) (actions : List (Action T))
        → Inv s
        → Inv (perform platform hooks p s actions)
    unfolding perform
    perform-Inv p s [] h = h
    perform-Inv p s (write k bytes ∷ actions) h = perform-Inv p _ actions (laws.posts s _ h)
    perform-Inv p s (read k size ∷ actions) h = perform-Inv p _ actions (laws.posts s _ h)
    perform-Inv p s (connect ∷ actions) h = perform-Inv p _ actions (laws.posts s _ h)
    perform-Inv p s (post_send m ∷ actions) h = perform-Inv p _ actions (laws.posts s _ h)
    perform-Inv p s (post_close ∷ actions) h = perform-Inv p _ actions (laws.posts s _ h)
    perform-Inv p s (enqueue m ∷ actions) h = perform-Inv p _ actions (laws.queues s _ h)
    perform-Inv p s (client_validated ∷ actions) h =
        perform-Inv p (validated platform hooks p s (get_elem? s.heap p)) actions
          (validated-Inv p s (get_elem? s.heap p) h)

    pub completed-Inv :
        (s t : Server T S) (p : ℕ) (event : Completion T) (o : Option (Connection T))
        → get_elem? s.heap p ≡ o
        → (elim o [
          | none ↦ some s
          | some c ↦ handle platform p c event >>= λ r. some (absorb platform hooks p s r)
        ])
          ≡ some t
        → Inv s
        → Inv t
    completed-Inv s t p event none there e h = subst Inv (some-eq e) h
    completed-Inv s t p event (some c) there e h =
        let (result, handled, absorbed) =
          bind-inverts (handle platform p c event) (λ x. some (absorb platform hooks p s x)) t e in
        let same : result.0.id ≡ c.id =
          subst (KeepsId c) handled (handle-KeepsId platform p c event) in
        subst Inv (some-eq absorbed) (
          perform-Inv p (record s { heap = set s.heap p result.0 }) result.1
            (laws.replaced s p c result.0 there same h))

    -- A handler of messages that keeps the property.
    abbrev pub Keeps : (Server T S → Option ℕ → Message T → Option (Server T S)) → Type 0
    Keeps on_message =
        (s t : Server T S) (remote : Option ℕ) (m : Message T)
        → on_message s remote m ≡ some t
        → Inv s
        → Inv t

    pub update-Inv :
        (on_message : Server T S → Option ℕ → Message T → Option (Server T S))
        → Keeps on_message
        → (max : ℕ) (s t : Server T S) → update platform hooks on_message max s ≡ some t
        → Inv s
        → Inv t
    unfolding update
    update-Inv on_message keeps zero s t e h = subst Inv (some-eq e) h
    update-Inv on_message keeps (suc max) s t e h =
        popped (λ u later k. update-Inv on_message keeps max u t later k) (Queue.pop s.messages_in)
          e
      where
        popped :
            ((u : Server T S) → update platform hooks on_message max u ≡ some t → Inv u → Inv t)
            → (o : Option (OwnedMessage T × Queue.Queue (OwnedMessage T)))
            → (elim o [
              | none ↦ some s
              | some (owned, rest) ↦
                  on_message (record s { messages_in = rest }) owned.remote owned.msg >>= λ u.
                  update platform hooks on_message max u
            ])
              ≡ some t
            → Inv t
        popped onward none f = subst Inv (some-eq f) h
        popped onward (some (owned, rest)) f =
            let (u, first, later) =
              bind-inverts (on_message (record s { messages_in = rest }) owned.remote owned.msg)
                (λ v. update platform hooks on_message max v) t f in
            onward u later (
              keeps (record s { messages_in = rest }) u owned.remote owned.msg first
                (laws.queues s rest h))
