-- ===== src/Task/Routed.antt =====
-- The steps of a process against those of one task.
use mathlib.Core.Path.{subst}
use kongjaexpress.Prelude.{
  ℕ, ◌≡◌, ◌≢◌, refl, sym, ap, ◌∙◌, arith, List, true, false, none, some, ◌==◌, ==_iff,
  if◌then◌else◌,
}
use kongjaexpress.Task.{Task, Step, Reach}
use kongjaexpress.Task.Delivery.{IsKept, Reach-IsKept}
use kongjaexpress.Task.Threads.{
  Process, running, assign, has, init_on, task_init, task_init_main, task_run, __task_start_routine,
  task_self, taken_by_self, ProcessStep, ProcessReach,
}
use kongjaexpress.Task.Own.{IsOwn, has-append_last, taken_by_self_own, taken_by_self_eq, step-IsOwn}

module _ {Msg : Type 0} where
  -- one task changed by a step of its own
  moved : (f : ℕ → Task Msg) (t q : ℕ) (v : Task Msg) → Step (f t) v → Reach (f q) (assign t v f q)
  moved f t q v s =
      elim (q == t) as (λ b. (q == t) ≡ b → Reach (f q) (if b then v else f q)) [
        | true ↦
            λ e. subst (λ (x : ℕ). Reach (f x) v) (sym ((==_iff q t).0 e)) (Reach.next Reach.here s)
        | false ↦ λ e. Reach.here
      ]
        refl

  kept_apart :
      (f : ℕ → Task Msg) (t q : ℕ) (v : Task Msg) (xs : List ℕ)
      → has t xs ≡ false
      → has q xs ≡ true
      → assign t v f q ≡ f q
  kept_apart f t q v xs fresh known =
      let other : q ≢ t = λ e. absurd (ground (arith, ap (λ (x : ℕ). has x xs) e)) in ground arith

  -- For each task that was set up, a step of the process is a step of the task or none.
  step-task :
      {p p' : Process Msg} (q : ℕ)
      → IsOwn p
      → has q p.tasks ≡ true
      → ProcessStep p p'
      → Reach (p.task q) (p'.task q)
  unfolding task_init task_init_main init_on task_run __task_start_routine
  step-task {p} q o known (ProcessStep.init t fresh) =
      subst (Reach (p.task q)) (sym (kept_apart p.task t q _ p.tasks fresh known)) Reach.here
  step-task {p} q o known (ProcessStep.init_main t fresh free) =
      subst (Reach (p.task q)) (sym (kept_apart p.task t q _ p.tasks fresh known)) Reach.here
  step-task {p} q o known (ProcessStep.start t k free) = Reach.here
  step-task {p} q o known (ProcessStep.begin th t c) = Reach.here
  step-task {p} q o known (ProcessStep.start_here th t k free out in_use) = Reach.here
  step-task {p} q o known (ProcessStep.add t m) = moved p.task t q _ (Step.add m)
  step-task {p} q o known (ProcessStep.send t h) = moved p.task t q _ (Step.send h)
  step-task {p} q o known (ProcessStep.wake th t u runs k on due done) =
      let same : u ≡ t = o.apart u t k (o.run_known th t runs) on in
      let mine : (p.task t).async ≡ true = ap (λ (x : ℕ). (p.task x).async) (sym same) ∙ due in
      subst (Reach (p.task q))
        (sym (
          ap (λ (x : Process Msg). x.task q) (taken_by_self_eq th t u p o runs k on)
          ∙ taken_by_self_own t q p))
        (moved p.task t q _ (Step.wake mine done))
  step-task {p} q o known (ProcessStep.run th t m rest runs e) =
      moved p.task t q _ (Step.run m rest e)

  step-known :
      {p p' : Process Msg} (q : ℕ) → has q p.tasks ≡ true → ProcessStep p p' → has q p'.tasks ≡ true
  unfolding task_init task_init_main init_on task_run __task_start_routine
  step-known {p} q known (ProcessStep.init t fresh) = ground (arith, has-append_last q t p.tasks)
  step-known {p} q known (ProcessStep.init_main t fresh free) =
      ground (arith, has-append_last q t p.tasks)
  step-known {p} q known (ProcessStep.start t k free) = known
  step-known {p} q known (ProcessStep.begin th t c) = known
  step-known {p} q known (ProcessStep.start_here th t k free out in_use) = known
  step-known {p} q known (ProcessStep.add t m) = known
  step-known {p} q known (ProcessStep.send t h) = known
  step-known {p} q known (ProcessStep.wake th t u runs k on due done) =
      elim (task_self th p) as (λ x. has q (taken_by_self u x p).tasks ≡ true) [
        | none ↦ known
        | some _ ↦ known
      ]
  step-known {p} q known (ProcessStep.run th t m rest runs e) = known

  joined-Reach : {a b c : Task Msg} → Reach a b → Reach b c → Reach a c
  joined-Reach r Reach.here = r
  joined-Reach r (Reach.next s one) = Reach.next (joined-Reach r s) one

  task-Reach :
      {p p' : Process Msg} (q : ℕ)
      → IsOwn p
      → has q p.tasks ≡ true
      → ProcessReach p p'
      → IsOwn p' × (has q p'.tasks ≡ true) × Reach (p.task q) (p'.task q)
  task-Reach q o known ProcessReach.here = (o, known, Reach.here)
  task-Reach q o known (ProcessReach.next r one) =
      let (o', known', so_far) = task-Reach q o known r in
      (step-IsOwn o' one, step-known q known' one, joined-Reach so_far (step-task q o' known' one))

  -- The threads of a process set tasks up, run them and send them messages, in any order; each task
  -- is set up once and run once, and at most one is on the default loop. If each thread that runs a
  -- task has it as its own before that, and the tasks have loops of their own, then so it is after
  -- it: `task_self()` in a thread that runs a task is this task. Of each task that was set up before,
  -- what it went through is what its own queue and callback can go through, so that no message to it
  -- is lost, doubled or overtaken.
  pub self-IsKept :
      {p p' : Process Msg} (th t q : ℕ)
      → IsOwn p
      → has q p.tasks ≡ true
      → IsKept (p.task q)
      → ProcessReach p p'
      → p'.phase th ≡ running t
      → (task_self th p' ≡ some t) × Reach (p.task q) (p'.task q) × IsKept (p'.task q)
  self-IsKept th t q o known kept r runs =
      let (o', _, steps) = task-Reach q o known r in
      (o'.self th t runs, steps, Reach-IsKept kept steps)
