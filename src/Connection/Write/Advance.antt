-- ===== src/Connection/Write/Advance.antt =====
-- A write that completes leads to the next one, as long as there is something to write.
use networking_projects.Prelude.{
  ◌>>=◌, ℕ, ◌≡◌, refl, sym, ap, subst, ◌∙◌, ◌≢◌, ◌+◌, ◌*◌, ◌≤◌, suc, inl, inr, List, [], ◌∷◌, ◌++◌,
  append_assoc, append-nil, Option, none, some, arith, length,
}
use networking_projects.Message.{Message}
use networking_projects.Connection.{write_next, on_body_written}
use networking_projects.Connection.Types.{
  Connection, Platform, header_written, body_written, Action, write,
}
use networking_projects.Connection.Write.{Outgoing, completes, complete, step, frame, frames}
use networking_projects.Connection.Write.Steps.{
  header_bytes, with_items, write_next_last, write_next_more, on_header_written_body,
  on_header_written_alone,
}
use networking_projects.Connection.Write.Phase.{
  items, Phase, idle, in_header, in_body, stalled, Inv, body_begun, left, Advances, frames-append,
}

module _ {T : Type 0} (platform : Platform T) where
  -- Once the first message has gone out whole, the next one is begun, if there is one.
  abbrev moved_on :
      Outgoing T → List ℕ → Option (Connection T × List (Action T)) → Option (Outgoing T)
  moved_on s w none = none
  moved_on s w (some (c, actions)) = some (record s { conn = c; pending = actions; wire = w })

  write_next-Advances :
      (s : Outgoing T) (done : List (Message T)) (m : Message T) (r : List (Message T)) (w : List ℕ)
      → items platform s ≡ m ∷ r
      → w ≡ frames platform done ++ frame platform m
      → s.sent ≡ done ++ items platform s
      → Advances platform s (2 * length r) (moved_on s w (write_next platform s.conn))
  write_next-Advances s done m [] w e f h = (
    record s { conn = with_items platform s.conn []; pending = []; wire = w },
    ap (moved_on s w) (write_next_last platform s.conn m e),
    record {
      done = done ++ m ∷ [];
      phase = idle refl refl (f ∙ sym (frames-append platform done m));
      accounted = h ∙ ap (◌++◌ done) e ∙ sym (append-nil (done ++ m ∷ []));
    },
    inr refl,
    refl,
    omega arith,
  )
  write_next-Advances s done m (n ∷ r) w e f h = (
    record s {
      conn = with_items platform s.conn (n ∷ r);
      pending = write header_written (header_bytes platform n) ∷ [];
      wire = w;
    },
    ap (moved_on s w) (write_next_more platform s.conn m n r e),
    record {
      done = done ++ m ∷ [];
      phase = in_header n r refl refl (f ∙ sym (frames-append platform done m));
      accounted = h ∙ ap (◌++◌ done) e ∙ sym (append_assoc done (m ∷ []) (n ∷ r));
    },
    inl (λ p. cc),
    refl,
    omega arith,
  )

  -- The continuation of a completed write is `moved_on`.
  abbrev after_write :
      Outgoing T → List ℕ → Option (Connection T × List (Action T)) → Option (Outgoing T)
  after_write s bytes o = o >>= λ (c, actions).
      some (record s { conn = c; pending = [] ++ actions; wire = s.wire ++ bytes })

  completed :
      (s : Outgoing T) (bytes : List ℕ) (o : Option (Connection T × List (Action T)))
      → after_write s bytes o ≡ moved_on s (s.wire ++ bytes) o
  completed s bytes none = refl
  completed s bytes (some (c, actions)) = refl

  pub header_written-Advances :
      (s : Outgoing T) (done : List (Message T)) (m : Message T) (r : List (Message T))
      (body : List ℕ)
      → m.body ≡ body
      → items platform s ≡ m ∷ r
      → s.wire ≡ frames platform done
      → s.sent ≡ done ++ items platform s
      → Advances platform s
          (2 * length r + 1)
          (complete platform s (write header_written (header_bytes platform m) ∷ []))
  unfolding step
  header_written-Advances s done m r [] b e w h =
      subst (Advances platform s (2 * length r + 1))
        (sym (
          ap (after_write s (header_bytes platform m))
            (on_header_written_alone platform s.conn m r e (ap length b))
          ∙ completed s (header_bytes platform m) (write_next platform s.conn)))
        (let (t, p, v, l, q, n) =
            write_next-Advances s done m r (s.wire ++ header_bytes platform m) e
              (ap (λ l. l ++ header_bytes platform m) w
                ∙ ap (◌++◌ (frames platform done)) (
                    sym (
                      ap (◌++◌ (header_bytes platform m)) b
                      ∙ append-nil (header_bytes platform m))))
              h in
          (t, p, v, l, q, omega arith))
  header_written-Advances s done m r (x ∷ body) b e w h = (
    record s { pending = write body_written m.body ∷ []; wire = s.wire ++ header_bytes platform m },
    rw (on_header_written_body platform s.conn m r e (omega (arith, ap length b))),
    record {
      done = done;
      phase = in_body m r e refl (ap (λ l. l ++ header_bytes platform m) w);
      accounted = h;
    },
    inl (λ p. cc),
    refl,
    omega (arith, ap length e),
  )

  pub body_written-Advances :
      (s : Outgoing T) (done : List (Message T)) (m : Message T) (r : List (Message T))
      → items platform s ≡ m ∷ r
      → s.wire ≡ frames platform done ++ header_bytes platform m
      → s.sent ≡ done ++ items platform s
      → Advances platform s (2 * length r) (complete platform s (write body_written m.body ∷ []))
  unfolding step on_body_written
  body_written-Advances s done m r e w h =
      subst (Advances platform s (2 * length r))
        (sym (completed s m.body (write_next platform s.conn)))
        (write_next-Advances s done m r (s.wire ++ m.body) e
          (ap (λ l. l ++ m.body) w
            ∙ append_assoc (frames platform done) (header_bytes platform m) m.body)
          h)

  module _ (s : Outgoing T) where
    pub at_pending :
        (P : Option (Outgoing T) → Type 0) (l : List (Action T))
        → s.pending ≡ l
        → P (complete platform s l)
        → P (step platform s completes)
    unfolding step
    at_pending P l p k = subst (λ l'. P (complete platform s l')) (sym p) k

  -- While writes go on, each that completes brings the end of the queue nearer.
  pub completes-Advances :
      (s : Outgoing T) (n : ℕ)
      → Inv platform s
      → s.pending ≢ []
      → left platform s ≤ suc n
      → Advances platform s n (step platform s completes)
  completes-Advances s n v busy h = go v.phase
    where
      go : Phase platform s v.done → Advances platform s n (step platform s completes)
      go (idle e p w) = absurd (busy p)
      go (in_header m r e p w) =
          let (t, q, x, l, same, k) =
            header_written-Advances s v.done m r m.body refl e w v.accounted in
          at_pending s (Advances platform s n) _ p
            (t, q, x, l, same, omega (arith, ap length e, ap (body_begun platform) p))
      go (in_body m r e p w) =
          let (t, q, x, l, same, k) = body_written-Advances s v.done m r e w v.accounted in
          at_pending s (Advances platform s n) _ p
            (t, q, x, l, same, omega (arith, ap length e, ap (body_begun platform) p))
      go (stalled m r out lost e p c d w) = absurd (busy p)
