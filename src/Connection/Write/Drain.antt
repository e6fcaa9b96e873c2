-- ===== src/Connection/Write/Drain.antt =====
-- What the sending half promises, whatever asio does.
use networking_projects.Prelude.{
  ◌>>=◌, ℕ, zero, suc, ◌*◌, ◌≤◌, ◌<◌, ◌≡◌, refl, sym, ap, ◌∙◌, ◌≢◌, ◌⊎◌, inl, inr, List, [], ◌∷◌,
  ◌++◌, append_assoc, append-nil, some, some-eq, subst, arith, length, replicate,
}
use networking_projects.Message.{Message}
use networking_projects.Connection.Types.{Connection, Platform}
use networking_projects.Connection.Write.{
  Outgoing, Event, completes, complete, run, start, frame, frames,
}
use networking_projects.Connection.Write.Phase.{
  Phase, idle, in_header, in_body, stalled, Inv, IsLive, left, items, start-Inv, body_begun,
}
use networking_projects.Connection.Write.Advance.{completes-Advances, at_pending}
use networking_projects.Connection.Write.Invariant.{run-Keeps}

module _ {T : Type 0} (platform : Platform T) where
  frames-append_list :
      (ms ns : List (Message T))
      → frames platform (ms ++ ns) ≡ frames platform ms ++ frames platform ns
  frames-append_list [] ns = refl
  frames-append_list (m ∷ ms) ns =
      ap (◌++◌ (frame platform m)) (frames-append_list ms ns)
      ∙ sym (append_assoc (frame platform m) (frames platform ms) (frames platform ns))

  -- What has gone out, with what follows it, makes up the frames of all messages sent.
  abbrev pub IsPrefixOfFrames : Outgoing T → Type 0
  IsPrefixOfFrames s = (rest : List ℕ) × (frames platform s.sent ≡ s.wire ++ rest)

  all_frames :
      (s : Outgoing T) (v : Inv platform s)
      → frames platform s.sent ≡ frames platform v.done ++ frames platform (items platform s)
  all_frames s v = ap (frames platform) v.accounted ∙ frames-append_list v.done (items platform s)

  -- With `gone` of the rest of the frames out, what is left is `more`.
  prefix_by :
      (s : Outgoing T) (v : Inv platform s) (gone more : List ℕ)
      → s.wire ≡ frames platform v.done ++ gone
      → frames platform (items platform s) ≡ gone ++ more
      → IsPrefixOfFrames s
  prefix_by s v gone more w e = (
    more,
    all_frames s v
        ∙ ap (◌++◌ (frames platform v.done)) e
        ∙ sym (append_assoc (frames platform v.done) gone more)
        ∙ ap (λ l. l ++ more) (sym w),
  )

  Inv-IsPrefixOfFrames : (s : Outgoing T) → Inv platform s → IsPrefixOfFrames s
  Inv-IsPrefixOfFrames s v = go v.phase
    where
      go : Phase platform s v.done → IsPrefixOfFrames s
      go (idle e p w) =
          prefix_by s v [] (frames platform (items platform s)) (w ∙ sym (append-nil _)) refl
      go (in_header m r e p w) =
          prefix_by s v [] (frames platform (items platform s)) (w ∙ sym (append-nil _)) refl
      go (in_body m r e p w) =
          prefix_by s v (platform.header.to_bytes m.header) (m.body ++ frames platform r) w
            (ap (frames platform) e ∙ append_assoc _ m.body (frames platform r))
      go (stalled m r out lost e p c d w) = prefix_by s v out (lost ++ frames platform r) w (
          ap (frames platform) e
          ∙ ap (λ l. l ++ frames platform r) d
          ∙ append_assoc out lost (frames platform r))

  Inv-one_write : (s : Outgoing T) → Inv platform s → length s.pending ≤ 1
  Inv-one_write s v = go v.phase
    where
      go : Phase platform s v.done → length s.pending ≤ 1
      go (idle e p w) = omega (arith, ap length p)
      go (in_header m r e p w) = omega (arith, ap length p)
      go (in_body m r e p w) = omega (arith, ap length p)
      go (stalled m r out lost e p c d w) = omega (arith, ap length p)

  -- From a connection with an empty queue, whatever is sent and however the writes complete or fail:
  -- no handler reads the front of an empty queue or waits for ever, at most one write is in flight,
  -- and the bytes that have gone out are a prefix of the frames (header, then body) of the messages
  -- sent, in their order, so no two messages are ever interleaved.
  pub run-IsPrefixOfFrames :
      (c : Connection T) (es : List (Event T))
      → (s : Outgoing T) × (run platform (start platform c) es ≡ some s)
        × (length s.pending ≤ 1)
        × IsPrefixOfFrames s
  run-IsPrefixOfFrames c es =
      let (s, p, v) = run-Keeps platform (start platform c) es (start-Inv platform c) in
      (s, p, Inv-one_write s v, Inv-IsPrefixOfFrames s v)

  abbrev Drained : Outgoing T → ℕ → Type 0
  Drained s n =
      (t : Outgoing T) × (run platform s (replicate n completes) ≡ some t)
      × (t.conn.messages_out.items ≡ [])
      × (t.wire ≡ frames platform s.sent)

  pub empty_queue-wire :
      (s : Outgoing T) → Inv platform s → items platform s ≡ [] → s.wire ≡ frames platform s.sent
  empty_queue-wire s v e = go v.phase
    where
      go : Phase platform s v.done → s.wire ≡ frames platform s.sent
      go (idle i p w) =
          w ∙ ap (frames platform) (sym (v.accounted ∙ ap (◌++◌ v.done) i ∙ append-nil v.done))
      go (in_header m r i p w) = absurd (omega (arith, ap length (sym i ∙ e)))
      go (in_body m r i p w) = absurd (omega (arith, ap length (sym i ∙ e)))
      go (stalled m r out lost i p c d w) = absurd (omega (arith, ap length (sym i ∙ e)))

  empty_queue-pending : (s : Outgoing T) → Inv platform s → items platform s ≡ [] → s.pending ≡ []
  empty_queue-pending s v e = go v.phase
    where
      go : Phase platform s v.done → s.pending ≡ []
      go (idle i p w) = p
      go (in_header m r i p w) = absurd (omega (arith, ap length (sym i ∙ e)))
      go (in_body m r i p w) = absurd (omega (arith, ap length (sym i ∙ e)))
      go (stalled m r out lost i p c d w) = p

  left-pos : (s : Outgoing T) → Inv platform s → s.pending ≢ [] → 0 < left platform s
  left-pos s v busy = go v.phase
    where
      go : Phase platform s v.done → 0 < left platform s
      go (idle e p w) = absurd (busy p)
      go (in_header m r e p w) = omega (arith, ap length e, ap (body_begun platform) p)
      go (in_body m r e p w) = omega (arith, ap length e, ap (body_begun platform) p)
      go (stalled m r out lost e p c d w) = absurd (busy p)

  run_nothing :
      (n : ℕ) (s : Outgoing T) → s.pending ≡ [] → run platform s (replicate n completes) ≡ some s
  unfolding run complete
  run_nothing zero s p = refl
  run_nothing (suc n) s p =
      at_pending platform s (λ o. (o >>= λ t. run platform t (replicate n completes)) ≡ some s) [] p
        (run_nothing n s p)

  drain :
      (n : ℕ) (s : Outgoing T)
      → Inv platform s
      → IsLive platform s
      → left platform s ≤ n
      → Drained s n
  unfolding run
  drain n s v (inr e) h =
      (s, run_nothing n s (empty_queue-pending s v e), e, empty_queue-wire s v e)
  drain zero s v (inl busy) h = absurd (omega (arith, left-pos s v busy))
  drain (suc n) s v (inl busy) h =
      let (t, p, x, live, same, k) = completes-Advances platform s n v busy h in
      let (u, q, e, w) = drain n t x live k in
      (
        u,
        ap (λ o. o >>= λ t'. run platform t' (replicate n completes)) p ∙ q,
        e,
        w ∙ ap (frames platform) same,
      )

  -- After any events from a connection with an empty queue: unless a write has failed, so that there
  -- are messages in the queue and no write is in flight, the handlers write everything out. When
  -- twice as many writes complete as messages are in the queue, the queue is empty and exactly the
  -- frames of all messages sent have gone out.
  pub run-drains :
      (c : Connection T) (es : List (Event T)) (s : Outgoing T) (n : ℕ)
      → run platform (start platform c) es ≡ some s
      → (s.pending ≢ []) ⊎ (s.conn.messages_out.items ≡ [])
      → 2 * length s.conn.messages_out.items ≤ n
      → (t : Outgoing T) × (run platform s (replicate n completes) ≡ some t)
        × (t.conn.messages_out.items ≡ [])
        × (t.wire ≡ frames platform s.sent)
  run-drains c es s n e live enough =
      let (s', p, v) = run-Keeps platform (start platform c) es (start-Inv platform c) in
      drain n s (subst (Inv platform) (some-eq (sym p ∙ e)) v) live (omega arith)
