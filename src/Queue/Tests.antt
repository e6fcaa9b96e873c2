-- ===== src/Queue/Tests.antt =====
-- A consumer goes to sleep on the empty queue, then two numbers are pushed.
use networking_projects.Prelude.{ℕ, ◌≤◌, ◌+◌, ◌≡◌, refl, ◌++◌, arith, none}
use networking_projects.Queue.{count, pop}
use networking_projects.Queue.Waiting.{
  Shared, start, after_push, Reach, here, next, sleeps, pushes, no_lost_wakeup, first_in_first_out,
}

abbrev nobody : Shared ℕ
nobody = start

abbrev asleep : Shared ℕ
asleep = record start { sleeping = 1 }

abbrev filled : Shared ℕ
filled = after_push (after_push asleep 5) 6

nothing_yet : pop nobody.queue ≡ none
unfolding pop
nothing_yet = refl

filled-Reach : Reach filled
filled-Reach = next (next (next here (sleeps nothing_yet)) (pushes 5)) (pushes 6)

no_lost_wakeup_example : count filled.queue ≤ filled.woken + filled.notifying
no_lost_wakeup_example = no_lost_wakeup filled-Reach (omega arith)

first_in_first_out_example : filled.pushed ≡ filled.gone ++ filled.queue.items
first_in_first_out_example = first_in_first_out filled-Reach
