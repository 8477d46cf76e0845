-- ===== src/Task/Threads.antt =====
-- src/core/task.c and idle_task.c: the tasks of a process, the threads that run them, and `task_self`. Tasks, threads
-- and loops are numbers; the default loop of libev is 0, and `ev_loop_new` gives a new one each time.
-- The callbacks `init` and `start` of a task are steps of the thread that calls them.

use kongjaexpress.Prelude.{
  ℕ, ◌+◌, ◌≤◌, ◌≡◌, ◌≢◌, List, [], ◌∷◌, ◌++◌, Bool, true, false, ◌||◌, Option, none, some, ◌==◌,
  if◌then◌else◌,
}
use kongjaexpress.Task.{Task, __task_init, notify_add, notify_send, take_all, handle}

-- What a thread does: it was created to run a task, or runs the loop of one, or is neither.
pub data Phase : Type 0 where
  elsewhere : Phase
  created running : ℕ → Phase

-- The memory of the tasks, `_tasks`, the loop of each task, the number of loops made, `_key_self` by
-- thread, the phase of each thread, and the number of threads.
pub record Process (Msg : Type 0) : Type 0 where
  pub task : ℕ → Task Msg
  pub tasks : List ℕ
  pub ev_loop : ℕ → ℕ
  pub loops : ℕ
  pub key_self : ℕ → Option ℕ
  pub phase : ℕ → Phase
  pub threads : ℕ

-- a function with one value changed
abbrev pub assign {ℓ} : {A : Type ℓ} → ℕ → A → (ℕ → A) → ℕ → A
assign i v f j = if j == i then v else f j

abbrev pub has : ℕ → List ℕ → Bool
has t [] = false
has t (x ∷ xs) = t == x || has t xs

module _ {Msg : Type 0} where
  unfoldable pub task_framework_init : Process Msg → Process Msg
  task_framework_init p = record p { key_self = λ th. none }

  -- `__task_init`, with `task_prepare_loop`
  unfoldable pub init_on : ℕ → ℕ → Process Msg → Process Msg
  init_on t loop p = record p {
    tasks = p.tasks ++ t ∷ [];
    task = assign t (__task_init (p.task t)) p.task;
    ev_loop = assign t loop p.ev_loop;
  }

  unfoldable pub task_init : ℕ → Process Msg → Process Msg
  unfolding init_on
  task_init t p = init_on t (p.loops + 1) (record p { loops = p.loops + 1 })

  unfoldable pub task_init_main : ℕ → Process Msg → Process Msg
  unfolding init_on
  task_init_main t p = init_on t 0 p

  -- `__task_start_routine`, up to its loop, in a thread
  unfoldable pub __task_start_routine : ℕ → ℕ → Process Msg → Process Msg
  __task_start_routine th t p = record p {
    key_self = assign th (some t) p.key_self;
    phase = assign th (running t) p.phase;
  }

  -- `pthread_create`
  unfoldable pub task_run : ℕ → Process Msg → Process Msg
  task_run t p = record p {
    phase = assign p.threads (created t) p.phase;
    key_self = assign p.threads none p.key_self;
    threads = p.threads + 1;
  }

  abbrev pub task_run_no_thread : ℕ → ℕ → Process Msg → Process Msg
  task_run_no_thread th t p = __task_start_routine th t p

  -- src/core/idle_task.c: the main task of a program, in the thread that calls it
  unfoldable pub idle_task_run : ℕ → ℕ → Process Msg → Process Msg
  idle_task_run th t p = task_run_no_thread th t (task_init_main t p)

  abbrev pub task_self : ℕ → Process Msg → Option ℕ
  task_self th p = p.key_self th

  -- `task_queue_noti_callback` up to the unlock, for the event of task `u`: the queue is that of
  -- `task_self()`.
  abbrev pub taken_by_self : ℕ → Option ℕ → Process Msg → Process Msg
  taken_by_self u none p = p
  taken_by_self u (some self) p =
      let heard = assign u (record (p.task u) { async = false }) p.task in
      record p {
        task = assign self (record (take_all (heard self)) { async = (heard self).async }) heard;
      }

  -- nobody runs a task
  abbrev pub IsFree : ℕ → Process Msg → Type 0
  IsFree t p = (th : ℕ) → (p.phase th ≢ created t) × (p.phase th ≢ running t)

  -- What the threads of a process do, in any order. A task is set up once and run once, and at most
  -- one is on the default loop. The loop that a thread runs has the events of the tasks that were set
  -- up with it.
  pub data ProcessStep (p : Process Msg) : Process Msg → Type 0 where
    init : (t : ℕ) → has t p.tasks ≡ false → ProcessStep p (task_init t p)
    init_main :
        (t : ℕ)
        → has t p.tasks ≡ false
        → ((u : ℕ) → has u p.tasks ≡ true → p.ev_loop u ≢ 0)
        → ProcessStep p (task_init_main t p)
    start : (t : ℕ) → has t p.tasks ≡ true → IsFree t p → ProcessStep p (task_run t p)
    begin : (th t : ℕ) → p.phase th ≡ created t → ProcessStep p (__task_start_routine th t p)
    start_here :
        (th t : ℕ)
        → has t p.tasks ≡ true
        → IsFree t p
        → p.phase th ≡ elsewhere
        → th + 1 ≤ p.threads
        → ProcessStep p (task_run_no_thread th t p)
    add :
        (t : ℕ) (m : Msg)
        → ProcessStep p (record p { task = assign t (notify_add (p.task t) m) p.task })
    send :
        (t : ℕ)
        → 1 ≤ (p.task t).sending
        → ProcessStep p (record p { task = assign t (notify_send (p.task t)) p.task })
    wake :
        (th t u : ℕ)
        → p.phase th ≡ running t
        → has u p.tasks ≡ true
        → p.ev_loop u ≡ p.ev_loop t
        → (p.task u).async ≡ true
        → (p.task t).tmp_list ≡ []
        → ProcessStep p (taken_by_self u (task_self th p) p)
    run :
        (th t : ℕ) (m : Msg) (rest : List Msg)
        → p.phase th ≡ running t
        → (p.task t).tmp_list ≡ m ∷ rest
        → ProcessStep p (record p { task = assign t (handle (p.task t) m rest) p.task })

  pub data ProcessReach (p : Process Msg) : Process Msg → Type 0 where
    here : ProcessReach p p
    next : {p' p'' : Process Msg} → ProcessReach p p' → ProcessStep p' p'' → ProcessReach p p''
