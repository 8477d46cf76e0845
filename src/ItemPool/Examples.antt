-- ===== src/ItemPool/Examples.antt =====
-- A pool of two buffers: one is sent and taken by the task, the other one is held.
use kongjaexpress.Prelude.{ℕ, refl, [], false, true, count, arith}
use kongjaexpress.Task.{Task}
use kongjaexpress.ItemPool.{
  ItemPool, init_loop, __put_item_pool_buffer, item_pool_init, item_pool_get, item_pool_notify, get,
  notify, Reach, here, next,
}
use kongjaexpress.ItemPool.Whole.{IsUnused, IsWhole, Reach-IsWhole}

abbrev idle : Task ℕ
idle = record {
  msgs = [];
  num_msgs = 0;
  async = false;
  tmp_list = [];
  sending = 0;
  ran = [];
  notified = [];
}

abbrev empty : ItemPool
empty = record { task = idle; num_buffers = 0; free_buffer_list = []; held = []; lost = [] }

empty-IsUnused : IsUnused idle empty
empty-IsUnused = record { no_queue = refl; no_tmp = refl; no_client = refl; no_loss = refl }

abbrev sent : ItemPool
sent = item_pool_notify true (item_pool_get (item_pool_get (item_pool_init idle empty 3)).1).1 0

sent-Reach : Reach (item_pool_init idle empty 3) sent
unfolding item_pool_init init_loop __put_item_pool_buffer item_pool_get count
sent-Reach = next (next (next here get) get) (notify true 0 (omega arith))

Reach-IsWhole_example : IsWhole 3 sent
Reach-IsWhole_example = Reach-IsWhole idle empty 3 sent empty-IsUnused sent-Reach
