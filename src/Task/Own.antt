-- ===== src/Task/Own.antt =====
-- Each thread that runs a task has it as its own.
use mathlib.Core.Path.{subst}
use kongjaexpress.Prelude.{
  ℕ, ◌+◌, ◌≤◌, ◌≡◌, ◌≢◌, sym, arith, List, [], ◌∷◌, ◌++◌, true, false, ◌||◌, some, ◌==◌,
}
use kongjaexpress.Task.{Task, take_all}
use kongjaexpress.Task.Threads.{
  Process, created, running, assign, has, init_on, task_init, task_init_main, task_run,
  __task_start_routine, task_self, taken_by_self, ProcessStep,
}

pub has-append_last : (t x : ℕ) (xs : List ℕ) → has t (xs ++ x ∷ []) ≡ (has t xs || t == x)
has-append_last t x [] = ground arith
has-append_last t x (y ∷ xs) = ground (arith, has-append_last t x xs)

module _ {Msg : Type 0} where
  -- A thread that runs a task has it as its own; the tasks that were set up have loops of their own.
  pub record IsOwn (p : Process Msg) : Type 0 where
    pub self : (th t : ℕ) → p.phase th ≡ running t → p.key_self th ≡ some t
    pub run_known : (th t : ℕ) → p.phase th ≡ running t → has t p.tasks ≡ true
    pub created_known : (th t : ℕ) → p.phase th ≡ created t → has t p.tasks ≡ true
    pub made : (t : ℕ) → has t p.tasks ≡ true → p.ev_loop t ≤ p.loops
    pub apart :
        (t u : ℕ) → has t p.tasks ≡ true → has u p.tasks ≡ true → p.ev_loop t ≡ p.ev_loop u → t ≡ u

  -- The callback of a thread that runs the task of the event takes the queue of that task.
  pub taken_by_self_own :
      (t q : ℕ) (p : Process Msg)
      → (taken_by_self t (some t) p).task q ≡ assign t (take_all (p.task t)) p.task q
  taken_by_self_own t q p = ground arith

  begun :
      (th t : ℕ) (p : Process Msg)
      → has t p.tasks ≡ true
      → IsOwn p
      → IsOwn (__task_start_routine th t p)
  unfolding __task_start_routine
  begun th t p known o = record {
    self = λ th' u e. ground (arith, o.self th' u);
    run_known = λ th' u e. ground (arith, o.run_known th' u);
    created_known = λ th' u e. ground (arith, o.created_known th' u);
    made = o.made;
    apart = o.apart;
  }

  set_up :
      (t loop loops : ℕ) (p : Process Msg)
      → has t p.tasks ≡ false
      → loop ≤ loops
      → p.loops ≤ loops
      → ((u : ℕ) → has u p.tasks ≡ true → p.ev_loop u ≢ loop)
      → IsOwn p
      → IsOwn (init_on t loop (record p { loops = loops }))
  unfolding init_on
  set_up t loop loops p fresh low more other o = record {
    self = o.self;
    run_known = λ th u e. ground (arith, has-append_last u t p.tasks, o.run_known th u e);
    created_known = λ th u e. ground (arith, has-append_last u t p.tasks, o.created_known th u e);
    made = λ u h. ground (arith, has-append_last u t p.tasks, o.made u);
    apart = λ u v h k e. ground (
      arith,
      has-append_last u t p.tasks,
      has-append_last v t p.tasks,
      o.apart u v,
      other u,
      other v,
    );
  }

  started : (t : ℕ) (p : Process Msg) → has t p.tasks ≡ true → IsOwn p → IsOwn (task_run t p)
  unfolding task_run
  started t p known o = record {
    self = λ th u e. ground (arith, o.self th u);
    run_known = λ th u e. ground (arith, o.run_known th u);
    created_known = λ th u e. ground (arith, o.created_known th u);
    made = o.made;
    apart = o.apart;
  }

  same_tasks : (f : ℕ → Task Msg) (p : Process Msg) → IsOwn p → IsOwn (record p { task = f })
  same_tasks f p o = record {
    self = o.self;
    run_known = o.run_known;
    created_known = o.created_known;
    made = o.made;
    apart = o.apart;
  }

  -- Only the thread that runs a task is taken_by_self by it.
  pub taken_by_self_eq :
      (th t u : ℕ) (p : Process Msg)
      → IsOwn p
      → p.phase th ≡ running t
      → has u p.tasks ≡ true
      → p.ev_loop u ≡ p.ev_loop t
      → taken_by_self u (task_self th p) p ≡ taken_by_self t (some t) p
  taken_by_self_eq th t u p o runs known on =
      let same : u ≡ t = o.apart u t known (o.run_known th t runs) on in
      λ i. taken_by_self (same i) (o.self th t runs i) p

  taken_by_self-IsOwn : (t : ℕ) (p : Process Msg) → IsOwn p → IsOwn (taken_by_self t (some t) p)
  taken_by_self-IsOwn t p o = same_tasks _ p o

  pub step-IsOwn : {p p' : Process Msg} → IsOwn p → ProcessStep p p' → IsOwn p'
  unfolding task_init task_init_main
  step-IsOwn {p} o (ProcessStep.init t fresh) =
      set_up t (p.loops + 1) (p.loops + 1) p fresh (omega arith) (omega arith)
        (λ u h e. absurd (omega (arith, o.made u h))) o
  step-IsOwn {p} o (ProcessStep.init_main t fresh free) =
      set_up t 0 p.loops p fresh (omega arith) (omega arith) free o
  step-IsOwn {p} o (ProcessStep.start t known free) = started t p known o
  step-IsOwn {p} o (ProcessStep.begin th t c) = begun th t p (o.created_known th t c) o
  step-IsOwn {p} o (ProcessStep.start_here th t known free out in_use) = begun th t p known o
  step-IsOwn {p} o (ProcessStep.add t m) = same_tasks _ p o
  step-IsOwn {p} o (ProcessStep.send t h) = same_tasks _ p o
  step-IsOwn {p} o (ProcessStep.wake th t u runs known on due done) =
      subst IsOwn (sym (taken_by_self_eq th t u p o runs known on)) (taken_by_self-IsOwn t p o)
  step-IsOwn {p} o (ProcessStep.run th t m rest runs e) = same_tasks _ p o
