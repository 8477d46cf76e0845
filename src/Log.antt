-- ===== src/Log.antt =====
-- src/core/log.c: a line is formatted in a buffer of a pool, and the task of the pool prints it. The
-- text of a line is what `vsnprintf` makes of its arguments, with no zero byte in it, and empty where
-- that fails. A thread that logs takes a buffer, and later formats the line and sends the buffer; what
-- other threads do in between is a step.
pub mod Printed
mod Examples
use kongjaexpress.Prelude.{
  ℕ, ◌+◌, ◌-◌, ◌≤◌, ◌≡◌, List, [], ◌∷◌, ◌++◌, Bool, true, false, ◌&&◌, Option, none, some, ltb,
  ◌==◌, if◌then◌else◌, length, take, count,
}
use kongjaexpress.Task.{Task, take_all}
use kongjaexpress.Task.Threads.{assign}
use kongjaexpress.ItemPool.{
  ItemPool, item_pool_init, item_pool_get, item_pool_put, item_pool_notify, consume_buffer,
}

-- LOG_BUFFER_NUM_ELEM and LOG_BUFFER_SIZE
abbrev pub log_buffer_num_elem : ℕ
log_buffer_num_elem = 128

abbrev pub log_buffer_size : ℕ
log_buffer_size = 256

-- `_debug_log_pool`, the strings in `_debug_log_buffer`, the calls of `fprintf`, and the lines whose
-- buffers were sent
pub record Log : Type 0 where
  pub pool : ItemPool
  pub buffers : ℕ → List ℕ
  pub printed : List (List ℕ)
  pub sent : List (List ℕ)

unfoldable pub log_init : Task ℕ → Log → Log
log_init task s = record s { pool = item_pool_init task s.pool log_buffer_num_elem }

-- the call of `item_pool_get`
unfoldable pub log_get : Log → Log
log_get s = record s { pool = (item_pool_get s.pool).1 }

-- The two branches at the end of `log_write`. The second argument is whether `malloc` gives the memory
-- for the message.
abbrev pub notify_or_put : Bool → Bool → ℕ → List ℕ → Log → Log
notify_or_put fits ok buf text s =
    if fits
    then record s {
      pool = item_pool_notify ok s.pool buf;
      sent = if ok then s.sent ++ text ∷ [] else s.sent;
    }
    else record s { pool = item_pool_put s.pool buf }

-- `log_write` with a buffer
unfoldable pub log_finish : Bool → ℕ → List ℕ → Log → Log
log_finish ok buf text s =
    notify_or_put (ltb 0 (length text) && ltb (length text) log_buffer_size) ok buf text
      (record s { buffers = assign buf (take (log_buffer_size - 1) text) s.buffers })

-- a thread that is not interrupted
unfoldable pub log_write : Bool → List ℕ → Log → Log
log_write ok text s = elim (item_pool_get s.pool).0 [
  | none ↦ s
  | some buf ↦ log_finish ok buf text (log_get s)
]

-- `consume` of the pool
unfoldable pub debug_log : ℕ → Log → Log
debug_log buf s = record s { printed = s.printed ++ s.buffers buf ∷ [] }

-- What the threads that log and the task of the pool do, in any order. A thread formats and sends only
-- a buffer that was taken.
pub data LogStep (s : Log) : Log → Type 0 where
  get : LogStep s (log_get s)
  finish :
      (ok : Bool) (buf : ℕ) (text : List ℕ)
      → 1 ≤ count buf s.pool.held
      → LogStep s (log_finish ok buf text s)
  wake :
      s.pool.task.async ≡ true
      → s.pool.task.tmp_list ≡ []
      → LogStep s (record s { pool = record (s.pool) { task = take_all s.pool.task } })
  consume :
      (buf : ℕ) (rest : List ℕ)
      → s.pool.task.tmp_list ≡ buf ∷ rest
      → LogStep s (record (debug_log buf s) { pool = consume_buffer s.pool buf rest })

pub data LogReach (s : Log) : Log → Type 0 where
  here : LogReach s s
  next : {s' s'' : Log} → LogReach s s' → LogStep s' s'' → LogReach s s''
