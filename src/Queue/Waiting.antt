-- ===== src/Queue/Waiting.antt =====
-- Threads that share one queue. A consumer that finds it empty sleeps on the condition variable; a
-- producer pushes under the mutex and notifies one sleeper after it let the mutex go, so another
-- thread may run in between. The system may also wake a sleeper for no reason.
use networking_projects.Prelude.{
  ℕ, suc, ◌+◌, ◌≤◌, ◌<◌, ◌≡◌, refl, sym, ap, ◌∙◌, ◌⊎◌, inl, List, [], ◌∷◌, ◌++◌, append_assoc,
  append-nil, none, some, arith, length-append,
}
use networking_projects.Queue.{Queue, no_items, push, pop, clear, count}

pub record Shared (A : Type 0) : Type 0 where
  pub queue : Queue A
  -- Threads asleep in `wait`, and threads woken that have yet to take the mutex again.
  pub sleeping : ℕ
  pub woken : ℕ
  -- Producers between the end of their block and `notify_one`.
  pub notifying : ℕ
  -- What was pushed, and what has left the queue, in order.
  pub pushed : List A
  pub gone : List A

module _ {A : Type 0} where
  abbrev pub start : Shared A
  start = record {
    queue = no_items;
    sleeping = 0;
    woken = 0;
    notifying = 0;
    pushed = [];
    gone = [];
  }

  abbrev pub after_push : Shared A → A → Shared A
  after_push s a = record s {
    queue = push s.queue a;
    notifying = suc s.notifying;
    pushed = s.pushed ++ a ∷ [];
  }

  abbrev pub after_pop : Shared A → A → Queue A → Shared A
  after_pop s a q = record s { queue = q; gone = s.gone ++ a ∷ [] }

  pub data Step (s : Shared A) : Shared A → Type 0 where
    -- `Push`, up to the end of its block.
    pushes : (a : A) → Step s (after_push s a)
    -- `notify_one`, with a sleeper and without.
    notifies :
        (n k : ℕ)
        → s.notifying ≡ suc n
        → s.sleeping ≡ suc k
        → Step s (record s { notifying = n; sleeping = k; woken = suc s.woken })
    notifies_nobody :
        (n : ℕ) → s.notifying ≡ suc n → s.sleeping ≡ 0 → Step s (record s { notifying = n })
    wakes_for_no_reason :
        (k : ℕ) → s.sleeping ≡ suc k → Step s (record s { sleeping = k; woken = suc s.woken })
    -- `Pop` by a thread that enters: it takes the front, or goes to sleep.
    pops : (a : A) (q : Queue A) → pop s.queue ≡ some (a, q) → Step s (after_pop s a q)
    sleeps : pop s.queue ≡ none → Step s (record s { sleeping = suc s.sleeping })
    -- A woken thread tests the predicate again.
    resumes :
        (a : A) (q : Queue A) (w : ℕ)
        → s.woken ≡ suc w
        → pop s.queue ≡ some (a, q)
        → Step s (record (after_pop s a q) { woken = w })
    sleeps_again :
        (w : ℕ)
        → s.woken ≡ suc w
        → pop s.queue ≡ none
        → Step s (record s { woken = w; sleeping = suc s.sleeping })
    clears : Step s (record s { queue = clear s.queue; gone = s.gone ++ s.queue.items })

  pub data Reach : Shared A → Type 0 where
    here : Reach start
    next : {s t : Shared A} → Reach s → Step s t → Reach t

  -- Nobody sleeps, or there are no more items than threads that were woken and notifications to come.
  abbrev NoLostWakeup : Shared A → Type 0
  NoLostWakeup s = (s.sleeping ≡ 0) ⊎ (count s.queue ≤ s.woken + s.notifying)

  Step-NoLostWakeup : {s t : Shared A} → Step s t → NoLostWakeup s → NoLostWakeup t
  unfolding count push pop clear
  Step-NoLostWakeup {s} (pushes a) h = ground (arith, length-append s.queue.items (a ∷ []))
  Step-NoLostWakeup (notifies n k e f) h = ground arith
  Step-NoLostWakeup (notifies_nobody n e f) h = ground arith
  Step-NoLostWakeup (wakes_for_no_reason k e) h = ground arith
  Step-NoLostWakeup (pops a q e) h = ground arith
  Step-NoLostWakeup (sleeps e) h = ground arith
  Step-NoLostWakeup (resumes a q w e f) h = ground arith
  Step-NoLostWakeup (sleeps_again w e f) h = ground arith
  Step-NoLostWakeup clears h = ground arith

  -- In every reachable state: while a consumer sleeps, the queue holds at most as many items as there
  -- are threads that were woken and have not taken the mutex again, and producers that have not called
  -- `notify_one` yet, together.
  pub no_lost_wakeup :
      {s : Shared A} → Reach s → 0 < s.sleeping → count s.queue ≤ s.woken + s.notifying
  no_lost_wakeup r awake = ground (arith, kept r)
    where
      kept : {s : Shared A} → Reach s → NoLostWakeup s
      kept here = inl refl
      kept (next r st) = Step-NoLostWakeup st (kept r)

  pop_items : (q q' : Queue A) (a : A) → pop q ≡ some (a, q') → q.items ≡ a ∷ q'.items
  unfolding pop
  pop_items q q' a e = ground arith

  Step-in_order :
      {s t : Shared A}
      → Step s t
      → s.pushed ≡ s.gone ++ s.queue.items
      → t.pushed ≡ t.gone ++ t.queue.items
  unfolding push clear
  Step-in_order {s} (pushes a) h =
      ap (λ l. l ++ a ∷ []) h ∙ append_assoc s.gone s.queue.items (a ∷ [])
  Step-in_order (notifies n k e f) h = h
  Step-in_order (notifies_nobody n e f) h = h
  Step-in_order (wakes_for_no_reason k e) h = h
  Step-in_order {s} (pops a q e) h =
      h ∙ ap (◌++◌ s.gone) (pop_items s.queue q a e) ∙ sym (append_assoc s.gone (a ∷ []) q.items)
  Step-in_order (sleeps e) h = h
  Step-in_order {s} (resumes a q w e f) h =
      h ∙ ap (◌++◌ s.gone) (pop_items s.queue q a f) ∙ sym (append_assoc s.gone (a ∷ []) q.items)
  Step-in_order (sleeps_again w e f) h = h
  Step-in_order {s} clears h = h ∙ sym (append-nil (s.gone ++ s.queue.items))

  -- In every reachable state the items that left the queue, followed by those in it, are the items
  -- pushed, in the order of the pushes: none is lost, doubled or overtaken.
  pub first_in_first_out : {s : Shared A} → Reach s → s.pushed ≡ s.gone ++ s.queue.items
  first_in_first_out here = refl
  first_in_first_out (next r st) = Step-in_order st (first_in_first_out r)
