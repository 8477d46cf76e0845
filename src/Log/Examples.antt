-- ===== src/Log/Examples.antt =====
-- Two threads take buffers; the one that took the second buffer sends first, and its line is printed.
use kongjaexpress.Prelude.{ℕ, ◌≡◌, refl, [], ◌∷◌, ◌++◌, false, true, count, arith, replicate, erase}
use kongjaexpress.Task.{Task, take_all, task_notify, task_queue_add}
use kongjaexpress.ItemPool.{
  init_loop, __put_item_pool_buffer, item_pool_init, item_pool_get, item_pool_notify, item_pool_put,
  consume_buffer,
}
use kongjaexpress.ItemPool.Whole.{IsWhole}
use kongjaexpress.Log.{
  Log, log_buffer_num_elem, log_init, log_get, log_finish, debug_log, log_write, LogReach, get,
  finish, wake, consume, here, next,
}
use kongjaexpress.Log.Printed.{IsFresh, waiting, Reach-IsLogged}

abbrev idle : Task ℕ
idle = record {
  msgs = [];
  num_msgs = 0;
  async = false;
  tmp_list = [];
  sending = 0;
  ran = [];
  notified = [];
}

abbrev unused : Log
unused = record {
  pool = record { task = idle; num_buffers = 0; free_buffer_list = []; held = []; lost = [] };
  buffers = λ b. [];
  printed = [];
  sent = [];
}

unused-IsFresh : IsFresh idle unused
unused-IsFresh = record {
  unused = record { no_queue = refl; no_tmp = refl; no_client = refl; no_loss = refl };
  no_line = refl;
  no_message = refl;
}

abbrev two_sent : Log
two_sent =
    log_finish true 0 (97 ∷ 10 ∷ [])
      (log_finish true 1 (98 ∷ 10 ∷ []) (log_get (log_get (log_init idle unused))))

abbrev woken : Log
woken = record two_sent { pool = record (two_sent.pool) { task = take_all two_sent.pool.task } }

abbrev one_printed : Log
one_printed = record (debug_log 1 woken) { pool = consume_buffer woken.pool 1 (0 ∷ []) }

one_printed-Reach : LogReach (log_init idle unused) one_printed
unfolding log_init item_pool_init init_loop __put_item_pool_buffer log_get item_pool_get log_finish
    item_pool_notify task_notify task_queue_add count erase
one_printed-Reach =
    next
      (next
        (next (next (next (next here get) get) (finish true 1 (98 ∷ 10 ∷ []) (omega arith)))
          (finish true 0 (97 ∷ 10 ∷ []) (omega arith)))
        (wake refl refl))
      (consume 1 (0 ∷ []) refl)

the_line : one_printed.printed ≡ (98 ∷ 10 ∷ []) ∷ []
unfolding log_init item_pool_init init_loop __put_item_pool_buffer log_get item_pool_get log_finish
    item_pool_notify task_notify task_queue_add debug_log
the_line = refl

-- A line that is longer than the buffer is not printed, and its buffer comes back.
long_line : (log_write true (replicate 256 65) (log_init idle unused)).sent ≡ []
unfolding log_init item_pool_init init_loop __put_item_pool_buffer log_get item_pool_get log_finish
    item_pool_put log_write
long_line = refl

Reach-IsLogged_example :
    (one_printed.printed ++ waiting one_printed ≡ one_printed.sent)
    × IsWhole log_buffer_num_elem one_printed.pool
Reach-IsLogged_example = Reach-IsLogged idle unused one_printed unused-IsFresh one_printed-Reach
