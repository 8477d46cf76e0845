-- ===== src/Task/Examples.antt =====
-- Two threads that notify a task, the second one while the callback runs.
use kongjaexpress.Prelude.{ℕ, ◌≡◌, refl, [], ◌∷◌, false, arith, none, some}
use kongjaexpress.Task.{
  Task, notify_add, notify_send, take_all, handle, task_queue_add, add, send, wake, run, Reach,
  here, next, loop,
}
use kongjaexpress.Task.Threads.{
  Process, elsewhere, assign, task_run, task_init_main, __task_start_routine, idle_task_run,
  init_on, taken_by_self, task_self, ProcessStep, ProcessReach,
}
use kongjaexpress.Task.Own.{IsOwn}
use kongjaexpress.Task.Routed.{self-IsKept}
use kongjaexpress.Task.Delivery.{IsKept, Reach-IsKept, loop-ran}

abbrev idle : Task ℕ
idle = record {
  msgs = [];
  num_msgs = 0;
  async = false;
  tmp_list = [];
  sending = 0;
  ran = [];
  notified = [];
}

idle-IsKept : IsKept idle
idle-IsKept = record { order = refl; count = refl; due = λ h. absurd (omega arith) }

abbrev woken : Task ℕ
woken = take_all (notify_send (notify_add idle 7))

abbrev busy : Task ℕ
busy = notify_send (notify_add (handle woken 7 []) 8)

busy-Reach : Reach idle busy
unfolding task_queue_add
busy-Reach =
    next
      (next
        (next (next (next (next here (add 7)) (send (omega arith))) (wake refl refl))
          (run 7 [] refl))
        (add 8))
      (send (omega arith))

loop-ran_example : (loop busy).ran ≡ 7 ∷ 8 ∷ []
unfolding task_queue_add
loop-ran_example = loop-ran busy (Reach-IsKept idle-IsKept busy-Reach) refl

-- a process with task 1, and the main thread
abbrev process : Process ℕ
process = record {
  task = λ t. idle;
  tasks = 1 ∷ [];
  ev_loop = λ t. t;
  loops = 1;
  key_self = λ th. none;
  phase = λ th. elsewhere;
  threads = 1;
}

process-IsOwn : IsOwn process
process-IsOwn = record {
  self = λ th t e. absurd (ground (arith, e));
  run_known = λ th t e. absurd (ground (arith, e));
  created_known = λ th t e. absurd (ground (arith, e));
  made = λ t h. ground (arith, h);
  apart = λ t u h k e. e;
}

-- Task 1 runs in thread 1, task 0 in the main thread, and the main thread notifies task 1.
abbrev both_run : Process ℕ
both_run = idle_task_run 0 0 (__task_start_routine 1 1 (task_run 1 process))

abbrev queued : Process ℕ
queued = record both_run { task = assign 1 (notify_add (both_run.task 1) 7) both_run.task }

abbrev due : Process ℕ
due = record queued { task = assign 1 (notify_send (queued.task 1)) queued.task }

abbrev taken : Process ℕ
taken = taken_by_self 1 (some 1) due

both_run-Reach : ProcessReach process both_run
unfolding idle_task_run task_run __task_start_routine task_init_main init_on
both_run-Reach =
    ProcessReach.next
      (ProcessReach.next
        (ProcessReach.next
          (ProcessReach.next ProcessReach.here (
            ProcessStep.start 1 refl
              (λ th. ((λ e. absurd (ground (arith, e))), (λ e. absurd (ground (arith, e)))))))
          (ProcessStep.begin 1 1 refl))
        (ProcessStep.init_main 0 refl (λ u h. ground (arith, h))))
      (ProcessStep.start_here 0 0 refl
        (λ th. (λ e. absurd (ground (arith, e)), λ e. absurd (ground (arith, e)))) refl
        (omega arith))

taken-Reach : ProcessReach process taken
unfolding idle_task_run task_run __task_start_routine task_init_main init_on task_queue_add
taken-Reach =
    ProcessReach.next
      (ProcessReach.next (ProcessReach.next both_run-Reach (ProcessStep.add 1 7))
        (ProcessStep.send 1 (omega arith)))
      (ProcessStep.wake 1 1 1 refl refl refl refl refl)

self-IsKept_example :
    (task_self 1 taken ≡ some 1) × Reach idle (taken.task 1) × IsKept (taken.task 1)
unfolding idle_task_run task_run __task_start_routine task_init_main init_on
self-IsKept_example = self-IsKept 1 1 1 process-IsOwn refl idle-IsKept taken-Reach refl
