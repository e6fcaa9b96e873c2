-- ===== src/Connection/Write/Invariant.antt =====
-- At most one write is in flight, and what has gone out is a prefix of the frames of the messages
-- sent, in their order.
use networking_projects.Prelude.{
  ◌>>=◌, ℕ, ◌≡◌, refl, sym, ap, subst, ◌∙◌, List, [], ◌∷◌, ◌++◌, append_assoc, append-nil, take,
  drop, take-append-drop,
}
use networking_projects.Message.{Message}
use networking_projects.Connection.{on_header_written, on_body_written, close}
use networking_projects.Connection.Types.{Platform, header_written, Action, write}
use networking_projects.Connection.Write.{
  frame, Outgoing, Event, sends, completes, fails, closes, fail, step, run, frames,
}
use networking_projects.Connection.Write.Steps.{
  header_bytes, with_items, on_send_idle, on_send_busy,
}
use networking_projects.Connection.Write.Phase.{
  items, Phase, idle, in_header, in_body, stalled, Inv, Keeps,
}
use networking_projects.Connection.Write.Advance.{
  at_pending, header_written-Advances, body_written-Advances,
}

module _ {T : Type 0} (platform : Platform T) where
  -- One more message at the end of the queue.
  added :
      (done : List (Message T)) (s : Outgoing T) (m : Message T) (l : List (Message T))
      → items platform s ≡ l
      → s.sent ≡ done ++ items platform s
      → s.sent ++ m ∷ [] ≡ done ++ (l ++ m ∷ [])
  added done s m l e h = ap (λ t. t ++ m ∷ []) (h ∙ ap (◌++◌ done) e) ∙ append_assoc done l (m ∷ [])

  -- What a message sent while a write is in flight leaves as it was.
  abbrev Same : Outgoing T → Outgoing T → Type 0
  Same s t = (t.pending ≡ s.pending) × (t.wire ≡ s.wire) × (t.conn.socket_open ≡ s.conn.socket_open)

  sends_busy-Keeps :
      (s : Outgoing T) (m x : Message T) (r : List (Message T)) (v : Inv platform s)
      → items platform s ≡ x ∷ r
      → ((t : Outgoing T)
          → items platform t ≡ x ∷ (r ++ m ∷ [])
          → Same s t
          → Phase platform t v.done)
      → Keeps platform (step platform s (sends m))
  unfolding step
  sends_busy-Keeps s m x r v e phase = (
    record s {
      conn = with_items platform s.conn (x ∷ (r ++ m ∷ []));
      pending = s.pending ++ [];
      sent = s.sent ++ m ∷ [];
    },
    rw (on_send_busy platform s.conn m x r e),
    record {
      done = v.done;
      phase = phase _ refl (append-nil s.pending, refl, refl);
      accounted = added v.done s m (x ∷ r) e v.accounted;
    },
  )

  sends-Keeps :
      (s : Outgoing T) (m : Message T) → Inv platform s → Keeps platform (step platform s (sends m))
  unfolding step
  sends-Keeps s m v = go v.phase
    where
      go : Phase platform s v.done → Keeps platform (step platform s (sends m))
      go (idle e p w) = (
        record s {
          conn = with_items platform s.conn (m ∷ []);
          pending = s.pending ++ write header_written (header_bytes platform m) ∷ [];
          sent = s.sent ++ m ∷ [];
        },
        rw (on_send_idle platform s.conn m e),
        record {
          done = v.done;
          phase =
              in_header m [] refl
                (ap (λ l. l ++ write header_written (header_bytes platform m) ∷ []) p) w;
          accounted = added v.done s m [] e v.accounted;
        },
      )
      go (in_header x r e p w) =
          sends_busy-Keeps s m x r v e λ t i (q, f, o). in_header x (r ++ m ∷ []) i (q ∙ p) (f ∙ w)
      go (in_body x r e p w) =
          sends_busy-Keeps s m x r v e λ t i (q, f, o). in_body x (r ++ m ∷ []) i (q ∙ p) (f ∙ w)
      go (stalled x r out lost e p c d w) =
          sends_busy-Keeps s m x r v e
            λ t i (q, f, o). stalled x (r ++ m ∷ []) out lost i (q ∙ p) (o ∙ c) d (f ∙ w)

  completes-Keeps : (s : Outgoing T) → Inv platform s → Keeps platform (step platform s completes)
  unfolding step
  completes-Keeps s v = go v.phase
    where
      go : Phase platform s v.done → Keeps platform (step platform s completes)
      go (idle e p w) = at_pending platform s (Keeps platform) [] p (s, refl, v)
      go (in_header m r e p w) =
          let (t, q, x, l, same, k) =
            header_written-Advances platform s v.done m r m.body refl e w v.accounted in
          at_pending platform s (Keeps platform) _ p (t, q, x)
      go (in_body m r e p w) =
          let (t, q, x, l, same, k) = body_written-Advances platform s v.done m r e w v.accounted in
          at_pending platform s (Keeps platform) _ p (t, q, x)
      go (stalled m r out lost e p c d w) = at_pending platform s (Keeps platform) [] p (s, refl, v)

  abbrev failed : Outgoing T → List ℕ → Outgoing T
  failed s out = record s { conn = close platform s.conn; pending = []; wire = s.wire ++ out }

  -- A write of `bytes` fails, of a frame that has `before` in front of them and `rest` behind them.
  failed-Inv :
      (s : Outgoing T) (n : ℕ) (v : Inv platform s) (m : Message T) (r : List (Message T))
      (before bytes rest : List ℕ)
      → items platform s ≡ m ∷ r
      → frame platform m ≡ before ++ (bytes ++ rest)
      → s.wire ≡ frames platform v.done ++ before
      → Inv platform (failed s (take n bytes))
  unfolding close
  failed-Inv s n v m r before bytes rest e f w =
      let out = take n bytes in
      let lost = drop n bytes ++ rest in
      let parts = ap (λ l. l ++ rest) (sym (take-append-drop n bytes)) ∙ append_assoc out _ rest in
      let whole = f ∙ ap (◌++◌ before) parts ∙ sym (append_assoc before out lost) in
      let gone = ap (λ l. l ++ out) w ∙ append_assoc (frames platform v.done) before out in
      record {
        done = v.done;
        phase = stalled m r (before ++ out) lost e refl refl whole gone;
        accounted = v.accounted;
      }

  -- A failed write closes the socket and leaves a prefix of a frame behind.
  fails-Keeps :
      (s : Outgoing T) (n : ℕ) → Inv platform s → Keeps platform (step platform s (fails n))
  unfolding step on_header_written on_body_written
  fails-Keeps s n v = go v.phase
    where
      at :
          (l : List (Action T))
          → s.pending ≡ l
          → Keeps platform (fail platform s l n)
          → Keeps platform (fail platform s s.pending n)
      at l p k = subst (λ l'. Keeps platform (fail platform s l' n)) (sym p) k

      go : Phase platform s v.done → Keeps platform (fail platform s s.pending n)
      go (idle e p w) = at [] p (s, refl, v)
      go (in_header m r e p w) =
          let h = header_bytes platform m in
          let start = w ∙ sym (append-nil (frames platform v.done)) in
          at _ p (failed s (take n h), refl, failed-Inv s n v m r [] h m.body e refl start)
      go (in_body m r e p w) =
          let h = header_bytes platform m in
          let whole = ap (◌++◌ h) (sym (append-nil m.body)) in
          at _ p (failed s (take n m.body), refl, failed-Inv s n v m r h m.body [] e whole w)
      go (stalled m r out lost e p c d w) = at [] p (s, refl, v)

  closes-Inv :
      (s : Outgoing T) → Inv platform s → Inv platform (record s { conn = close platform s.conn })
  unfolding close
  closes-Inv s v = record { done = v.done; phase = go v.phase; accounted = v.accounted }
    where
      go :
          Phase platform s v.done
          → Phase platform (record s { conn = close platform s.conn }) v.done
      go (idle e p w) = idle e p w
      go (in_header m r e p w) = in_header m r e p w
      go (in_body m r e p w) = in_body m r e p w
      go (stalled m r out lost e p c d w) = stalled m r out lost e p refl d w

  pub step-Keeps :
      (s : Outgoing T) (e : Event T) → Inv platform s → Keeps platform (step platform s e)
  step-Keeps s (sends m) v = sends-Keeps s m v
  step-Keeps s completes v = completes-Keeps s v
  step-Keeps s (fails n) v = fails-Keeps s n v
  step-Keeps s closes v =
      (record s { conn = close platform s.conn }, unfold step in refl, closes-Inv s v)

  pub run-Keeps :
      (s : Outgoing T) (es : List (Event T)) → Inv platform s → Keeps platform (run platform s es)
  unfolding run
  run-Keeps s [] v = (s, refl, v)
  run-Keeps s (e ∷ es) v =
      let (t, p, w) = step-Keeps s e v in
      let (u, q, x) = run-Keeps t es w in (u, ap (λ o. o >>= λ t'. run platform t' es) p ∙ q, x)
