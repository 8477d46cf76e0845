-- ===== src/Task.antt =====
-- src/core/task.c and inc/task.h: the message queue of a task. Other threads add messages under the
-- queue's lock and wake the task with `ev_async_send`; the task's callback takes all messages at once
-- and runs their handlers. A message is what its handler is and what it is given.
--
-- `ev_async` is libev's: its manual says that sends before the callback are compressed into one, and
-- that a send is not lost. `async` is whether the callback is due. What one thread does between the
-- lock and the unlock, and each call of a handler, is one step.
pub mod Delivery
pub mod Threads
pub mod Own
pub mod Routed
mod Examples
use kongjaexpress.Prelude.{
  ℕ, zero, suc, ◌+◌, ◌-◌, ◌%◌, ◌^◌, ◌≤◌, ◌≡◌, List, [], ◌∷◌, ◌++◌, Bool, true, false, if◌then◌else◌,
}

-- The queue, the local list of the callback, the number of threads between `task_queue_add` and
-- `ev_async_send`, the messages whose handler has run, and all messages that were added.
pub record Task (Msg : Type 0) : Type 0 where
  pub msgs : List Msg
  pub num_msgs : ℕ
  pub async : Bool
  pub tmp_list : List Msg
  pub sending : ℕ
  pub ran : List Msg
  pub notified : List Msg

module _ {Msg : Type 0} where
  unfoldable pub task_queue_init : Task Msg → Task Msg
  task_queue_init t = record t { msgs = []; num_msgs = 0 }

  -- `task_prepare_loop`: the callback is not due.
  unfoldable pub __task_init : Task Msg → Task Msg
  unfolding task_queue_init
  __task_init t = record (task_queue_init t) { async = false }

  unfoldable pub task_queue_add : Task Msg → Msg → Task Msg
  task_queue_add t m = record t {
    msgs = t.msgs ++ m ∷ [];
    num_msgs = (t.num_msgs + 1) % 2 ^ 32;
    notified = t.notified ++ m ∷ [];
  }

  -- The two halves of `task_notify` after its `malloc`.
  abbrev pub notify_add : Task Msg → Msg → Task Msg
  notify_add t m = record (task_queue_add t m) { sending = t.sending + 1 }

  abbrev pub notify_send : Task Msg → Task Msg
  notify_send t = record t { async = true; sending = t.sending - 1 }

  -- The first argument is whether `malloc` gives memory; the result is 0 or -1, as its negation.
  unfoldable pub task_notify : Bool → Task Msg → Msg → ℕ × Task Msg
  task_notify ok t m = if ok then (0, notify_send (notify_add t m)) else (1, t)

  -- The callback up to the unlock: `list_cut_position` moves the whole queue.
  abbrev pub take_all : Task Msg → Task Msg
  take_all t = record t { async = false; tmp_list = t.msgs; msgs = []; num_msgs = 0 }

  -- one round of the callback's loop
  abbrev pub handle : Task Msg → Msg → List Msg → Task Msg
  handle t m rest = record t { tmp_list = rest; ran = t.ran ++ m ∷ [] }

  -- the loop, over the messages that are left
  pub handle_all : List Msg → Task Msg → Task Msg
  handle_all [] t = t
  handle_all (m ∷ rest) t = handle_all rest (handle t m rest)

  -- The callback where no other thread runs in between.
  unfoldable pub task_queue_noti_callback : Task Msg → Task Msg
  task_queue_noti_callback t = handle_all t.msgs (take_all t)

  -- What the threads do, in any order. The callback runs in the task's own thread, and begins only
  -- when it is over; a handler may itself notify the task.
  pub data Step (t : Task Msg) : Task Msg → Type 0 where
    add : (m : Msg) → Step t (notify_add t m)
    send : 1 ≤ t.sending → Step t (notify_send t)
    wake : t.async ≡ true → t.tmp_list ≡ [] → Step t (take_all t)
    run : (m : Msg) (rest : List Msg) → t.tmp_list ≡ m ∷ rest → Step t (handle t m rest)

  pub data Reach (t : Task Msg) : Task Msg → Type 0 where
    here : Reach t t
    next : {t' t'' : Task Msg} → Reach t t' → Step t' t'' → Reach t t''

  -- The loop of the task from now on: the handlers that are left, then the callback if it is due.
  unfoldable pub loop : Task Msg → Task Msg
  loop t = let t' = handle_all t.tmp_list t in if t'.async then task_queue_noti_callback t' else t'
