-- ===== src/Server/Running/Handlers.antt =====
-- No handler of a connection changes its identifier.
use networking_projects.Prelude.{
  ltb, length, not, ◌>>=◌, ℕ, ◌≡◌, refl, Bool, true, false, List, [], Option, none, some,
  if◌then◌else◌, arith,
}
use networking_projects.Queue
use networking_projects.Connection
use networking_projects.Connection.Types.{Connection, Platform, Action}
use networking_projects.Server.Running.{
  Completion, header_written, body_written, validation_written, header_read, body_read,
  validation_read, send_posted, close_posted, handle,
}

module _ {T : Type 0} where
  -- What a handler leaves, if it is defined, has the identifier of the connection.
  abbrev pub KeepsId : Connection T → Option (Connection T × List (Action T)) → Type 0
  KeepsId c none = Unit {0}
  KeepsId c (some r) = r.0.id ≡ c.id

  bind-KeepsId :
      {A : Type 0} (c : Connection T) (o : Option A)
      (f : A → Option (Connection T × List (Action T)))
      → ((a : A) → KeepsId c (f a))
      → KeepsId c (o >>= f)
  bind-KeepsId c none f h = tt
  bind-KeepsId c (some a) f h = h a

  if-KeepsId :
      (c : Connection T) (b : Bool) (x y : Option (Connection T × List (Action T)))
      → KeepsId c x
      → KeepsId c y
      → KeepsId c (if b then x else y)
  if-KeepsId c true x y h k = h
  if-KeepsId c false x y h k = k

  in_state-KeepsId :
      (c c' : Connection T) (o : Option (List (Action T)))
      → c'.id ≡ c.id
      → KeepsId c (Connection.in_state c' o)
  in_state-KeepsId c c' none h = tt
  in_state-KeepsId c c' (some actions) h = h

module _ {T : Type 0} (platform : Platform T) where
  write_next-KeepsId : (c : Connection T) → KeepsId c (Connection.write_next platform c)
  unfolding Connection.write_next
  write_next-KeepsId c = bind-KeepsId c (Queue.pop c.messages_out) _ (λ (m, rest).
      let c' = record c { messages_out = rest } in
      if-KeepsId c (Queue.is_empty rest) (some (c', []))
        (Connection.in_state c' (Connection.write_header platform c')) refl
        (in_state-KeepsId c c' _ refl))

  pub handle-KeepsId :
      (p : ℕ) (c : Connection T) (e : Completion T) → KeepsId c (handle platform p c e)
  unfolding handle Connection.on_header_written Connection.on_body_written Connection.on_send
      Connection.close Connection.on_validation_written Connection.on_header_read
      Connection.on_body_read Connection.on_validation_read
  handle-KeepsId p c (header_written false) = refl
  handle-KeepsId p c (header_written true) = bind-KeepsId c (Queue.front c.messages_out) _ (λ m.
      if-KeepsId c (ltb 0 (length m.body)) _ _ (in_state-KeepsId c c _ refl) (write_next-KeepsId c))
  handle-KeepsId p c (body_written false) = refl
  handle-KeepsId p c (body_written true) = write_next-KeepsId c
  handle-KeepsId p c (validation_written false) = refl
  handle-KeepsId p c (validation_written true) = ground arith
  handle-KeepsId p c (header_read none) = refl
  handle-KeepsId p c (header_read (some bytes)) = ground arith
  handle-KeepsId p c (body_read none) = refl
  handle-KeepsId p c (body_read (some bytes)) = refl
  handle-KeepsId p c (validation_read none) = refl
  handle-KeepsId p c (validation_read (some bytes)) = ground arith
  handle-KeepsId p c (send_posted msg) =
      let c' = record c { messages_out = Queue.push c.messages_out msg } in
      if-KeepsId c (not (Queue.is_empty c.messages_out)) (some (c', []))
        (Connection.in_state c' (Connection.write_header platform c')) refl
        (in_state-KeepsId c c' _ refl)
  handle-KeepsId p c close_posted = refl
