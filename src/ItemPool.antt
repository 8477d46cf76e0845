-- ===== src/ItemPool.antt =====
-- src/core/item_pool.c and inc/item_pool.h: a pool of buffers that threads fill and the pool's task
-- consumes. A buffer is its index in the array `buffers`. Each function holds the pool's lock while it
-- changes the list. The messages of the task are the buffers that `item_pool_notify` sent, with the
-- handler `__consume_buffer`; the client's `consume` leaves the pool alone.
pub mod Whole
mod Examples
use kongjaexpress.Prelude.{
  ℕ, zero, suc, ◌+◌, ◌≤◌, ◌≡◌, List, [], ◌∷◌, ◌++◌, Bool, true, false, Option, none, some,
  if◌then◌else◌, count, erase,
}
use kongjaexpress.Task.{Task, task_notify, notify_send, take_all, handle}

-- `item_pool_t`, the buffers that clients hold, and those whose message could not be sent.
pub record ItemPool : Type 0 where
  pub task : Task ℕ
  pub num_buffers : ℕ
  pub free_buffer_list : List ℕ
  pub held : List ℕ
  pub lost : List ℕ

unfoldable pub __put_item_pool_buffer : ItemPool → ℕ → ItemPool
__put_item_pool_buffer pool buf = record pool {
  free_buffer_list = pool.free_buffer_list ++ buf ∷ [];
}

-- The loop of `item_pool_init`, `n` rounds of it. The client's `item_buffer_init` leaves the pool
-- alone.
unfoldable pub init_loop : ℕ → ItemPool → ItemPool
init_loop zero pool = pool
init_loop (suc n) pool = __put_item_pool_buffer (init_loop n pool) n

unfoldable pub item_pool_init : Task ℕ → ItemPool → ℕ → ItemPool
item_pool_init task pool num_bufs =
    init_loop num_bufs (record pool { task = task; num_buffers = num_bufs; free_buffer_list = [] })

abbrev pub first : ItemPool → List ℕ → Option ℕ × ItemPool
first pool [] = (none, pool)
first pool (buf ∷ rest) =
    (some buf, record pool { free_buffer_list = rest; held = buf ∷ pool.held })

unfoldable pub item_pool_get : ItemPool → Option ℕ × ItemPool
item_pool_get pool = first pool pool.free_buffer_list

unfoldable pub item_pool_put : ItemPool → ℕ → ItemPool
unfolding __put_item_pool_buffer
item_pool_put pool buf = __put_item_pool_buffer (record pool { held = erase buf pool.held }) buf

-- The result of `task_notify` is ignored. The argument is whether its `malloc` gives memory.
unfoldable pub item_pool_notify : Bool → ItemPool → ℕ → ItemPool
item_pool_notify ok pool buf = record pool {
  task = (task_notify ok pool.task buf).1;
  held = erase buf pool.held;
  lost = if ok then pool.lost else buf ∷ pool.lost;
}

-- the handler of the message, `__consume_buffer`, in a round of the task's loop
unfoldable pub consume_buffer : ItemPool → ℕ → List ℕ → ItemPool
unfolding __put_item_pool_buffer
consume_buffer pool buf rest =
    __put_item_pool_buffer (record pool { task = handle pool.task buf rest }) buf

-- What clients and the task do, in any order. A client gives back or sends only what it holds.
pub data Step (pool : ItemPool) : ItemPool → Type 0 where
  get : Step pool (item_pool_get pool).1
  put : (buf : ℕ) → 1 ≤ count buf pool.held → Step pool (item_pool_put pool buf)
  notify :
      (ok : Bool) (buf : ℕ) → 1 ≤ count buf pool.held → Step pool (item_pool_notify ok pool buf)
  wake :
      pool.task.async ≡ true
      → pool.task.tmp_list ≡ []
      → Step pool (record pool { task = take_all pool.task })
  consume :
      (buf : ℕ) (rest : List ℕ)
      → pool.task.tmp_list ≡ buf ∷ rest
      → Step pool (consume_buffer pool buf rest)

pub data Reach (pool : ItemPool) : ItemPool → Type 0 where
  here : Reach pool pool
  next : {p p' : ItemPool} → Reach pool p → Step p p' → Reach pool p'
