-- ===== src/ItemPool/Whole.antt =====
-- No buffer is in two places.
use kongjaexpress.Prelude.{
  ℕ, zero, suc, ◌+◌, ◌≤◌, ◌≡◌, refl, ap, ◌∙◌, List, [], ◌∷◌, true, false, arith, ltb, if◌then◌else◌,
  count, count-append, count-erase,
}
use kongjaexpress.Task.{Task, task_queue_add, task_notify}
use kongjaexpress.ItemPool.{
  ItemPool, __put_item_pool_buffer, init_loop, item_pool_init, first, item_pool_get, item_pool_put,
  item_pool_notify, consume_buffer, Step, get, put, notify, wake, consume, Reach, here, next,
}

-- how often a buffer is in a queue of the task
abbrev pub queued : ℕ → ItemPool → ℕ
queued b pool = count b pool.task.tmp_list + count b pool.task.msgs

-- Each of the pool's buffers is in one place, once: free, with a client, in the task's queues, or
-- lost; and there are no others.
pub IsWhole : ℕ → ItemPool → Type 0
IsWhole n pool =
    (b : ℕ)
    → count b pool.free_buffer_list + count b pool.held + queued b pool + count b pool.lost
      ≡ (if ltb b n then 1 else 0)

-- A buffer that a client holds is in no queue.
pub held_only :
    (n b : ℕ) (pool : ItemPool)
    → IsWhole n pool
    → 1 ≤ count b pool.held
    → (count b pool.task.tmp_list ≡ 0) × (count b pool.task.msgs ≡ 0)
unfolding IsWhole
held_only n b pool w h = ground (arith, w b)

get-IsWhole :
    (n : ℕ) (pool : ItemPool) (free : List ℕ)
    → pool.free_buffer_list ≡ free
    → IsWhole n pool
    → IsWhole n (first pool free).1
unfolding IsWhole count
get-IsWhole n pool [] e w b = w b
get-IsWhole n pool (x ∷ rest) e w b = omega (arith, w b, ap (count b) e)

pub Step-IsWhole : (n : ℕ) {p p' : ItemPool} → IsWhole n p → Step p p' → IsWhole n p'
unfolding IsWhole count item_pool_get item_pool_put item_pool_notify consume_buffer task_notify
    task_queue_add
Step-IsWhole n {p} w get b = get-IsWhole n p p.free_buffer_list refl w b
Step-IsWhole n {p} w (put x h) b =
    omega (arith, w b, count-append b p.free_buffer_list (x ∷ []), count-erase b x p.held h)
Step-IsWhole n {p} w (notify true x h) b =
    omega (arith, w b, count-append b p.task.msgs (x ∷ []), count-erase b x p.held h)
Step-IsWhole n {p} w (notify false x h) b = omega (arith, w b, count-erase b x p.held h)
Step-IsWhole n {p} w (wake on done) b = omega (arith, w b, ap (count b) done)
Step-IsWhole n {p} w (consume x rest e) b =
    omega (arith, w b, ap (count b) e, count-append b p.free_buffer_list (x ∷ []))

-- what nobody has used yet
pub record IsUnused (task : Task ℕ) (pool : ItemPool) : Type 0 where
  pub no_queue : task.msgs ≡ []
  pub no_tmp : task.tmp_list ≡ []
  pub no_client : pool.held ≡ []
  pub no_loss : pool.lost ≡ []

init_loop-free :
    (n b : ℕ) (pool : ItemPool)
    → pool.free_buffer_list ≡ []
    → count b (init_loop n pool).free_buffer_list ≡ (if ltb b n then 1 else 0)
unfolding init_loop __put_item_pool_buffer count
init_loop-free zero b pool e = ap (count b) e ∙ ground arith
init_loop-free (suc n) b pool e =
    ground (
      arith,
      init_loop-free n b pool e,
      count-append b (init_loop n pool).free_buffer_list (n ∷ []),
    )

init_loop-rest :
    (n : ℕ) (pool : ItemPool)
    → let p = init_loop n pool in (p.task ≡ pool.task) × (p.held ≡ pool.held) × (p.lost ≡ pool.lost)
unfolding init_loop __put_item_pool_buffer
init_loop-rest zero pool = (refl, refl, refl)
init_loop-rest (suc n) pool = init_loop-rest n pool

pub init_same_task :
    (task : Task ℕ) (pool : ItemPool) (n : ℕ) → (item_pool_init task pool n).task ≡ task
unfolding item_pool_init
init_same_task task pool n =
    (init_loop-rest n (record pool { task = task; num_buffers = n; free_buffer_list = [] })).0

pub init-IsWhole :
    (task : Task ℕ) (pool : ItemPool) (n : ℕ)
    → IsUnused task pool
    → IsWhole n (item_pool_init task pool n)
unfolding item_pool_init IsWhole count
init-IsWhole task pool n u b =
    let p = record pool { task = task; num_buffers = n; free_buffer_list = [] } in
    let (same_task, same_held, same_lost) = init_loop-rest n p in
    omega (
      arith,
      init_loop-free n b p refl,
      ap (count b) (same_held ∙ u.no_client),
      ap (count b) (same_lost ∙ u.no_loss),
      ap (count b) (ap (λ (t : Task ℕ). t.msgs) same_task ∙ u.no_queue),
      ap (count b) (ap (λ (t : Task ℕ). t.tmp_list) same_task ∙ u.no_tmp),
    )

-- A pool of `n` buffers is initialised for a task with no messages, and then clients and the task do
-- any steps in any order. Then each of the buffers 0 to `n - 1` is in exactly one place, once: free,
-- with a client, in a queue of the task, or lost where no memory was there for its message. No other
-- buffer is anywhere.
pub Reach-IsWhole :
    (task : Task ℕ) (pool : ItemPool) (n : ℕ) (p : ItemPool)
    → IsUnused task pool
    → Reach (item_pool_init task pool n) p
    → IsWhole n p
Reach-IsWhole task pool n p u here = init-IsWhole task pool n u
Reach-IsWhole task pool n p u (next r s) = Step-IsWhole n (Reach-IsWhole task pool n _ u r) s
