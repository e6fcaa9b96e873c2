-- ===== src/Server/Intake.antt =====
-- `Update`: how many messages it takes off the incoming queue.
use networking_projects.Prelude.{
  ◌>>=◌, ℕ, zero, suc, ◌≡◌, refl, ap, ◌∙◌, List, [], ◌∷◌, Option, none, some, arith, drop,
}
use networking_projects.Queue.{Queue, pop}
use networking_projects.Message.{Message}
use networking_projects.Connection.Types.{OwnedMessage, Platform}
use networking_projects.Server.{Server, Hooks, update}

module _ {T S : Type 0} (platform : Platform T) (hooks : Hooks T S) where
  abbrev Handler : Type 0
  Handler = Server T S → Option ℕ → Message T → Option (Server T S)

  -- A handler that is defined on every message and leaves the queue of incoming messages alone.
  abbrev pub IsQuiet : (Server T S → Option ℕ → Message T → Option (Server T S)) → Type 0
  IsQuiet on_message =
      (s : Server T S) (remote : Option ℕ) (m : Message T)
      → (t : Server T S) × (on_message s remote m ≡ some t) × (t.messages_in ≡ s.messages_in)

  pop_nothing : (q : Queue (OwnedMessage T)) → q.items ≡ [] → pop q ≡ none
  unfolding pop
  pop_nothing q e = ground arith

  pop_first :
      (q : Queue (OwnedMessage T)) (o : OwnedMessage T) (os : List (OwnedMessage T))
      → q.items ≡ o ∷ os
      → pop q ≡ some (o, record { items = os })
  unfolding pop
  pop_first q o os e = ground arith

  update_from :
      (on_message : Handler) (os : List (OwnedMessage T)) (max : ℕ) (s : Server T S)
      → IsQuiet on_message
      → s.messages_in.items ≡ os
      → (t : Server T S) × (update platform hooks on_message max s ≡ some t)
        × (t.messages_in.items ≡ drop max os)
  unfolding update
  update_from on_message os zero s quiet e = (s, refl, e)
  update_from on_message [] (suc max) s quiet e = (s, rw (pop_nothing s.messages_in e, update), e)
  update_from on_message (o ∷ os) (suc max) s quiet e =
      let popped = record s { messages_in = record { items = os } } in
      let (t, p, q) = quiet popped o.remote o.msg in
      let (u, r, f) =
        update_from on_message os max t quiet (ap (λ (w : Queue (OwnedMessage T)). w.items) q) in
      (
        u,
        rw (pop_first s.messages_in o os e, update)
            (ap (λ v. v >>= λ t'. update platform hooks on_message max t') p ∙ r),
        f,
      )

  -- With a handler that is defined on every message and leaves the incoming queue alone, `Update`
  -- ends, and has taken exactly the first `max` messages off the queue: all of them, if there are
  -- no more than that.
  pub update-drop :
      (on_message : Server T S → Option ℕ → Message T → Option (Server T S)) (max : ℕ)
      (s : Server T S)
      → IsQuiet on_message
      → (t : Server T S) × (update platform hooks on_message max s ≡ some t)
        × (t.messages_in.items ≡ drop max s.messages_in.items)
  update-drop on_message max s quiet = update_from on_message s.messages_in.items max s quiet refl
