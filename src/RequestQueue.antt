-- ===== src/RequestQueue.antt =====
-- src/utils/request_queue.c and inc/request_queue.h: requests with six priorities. A request is its
-- address and its priority. The callbacks of the client leave the queue alone; they are kept as what
-- they are called with. `num_reqs` is an `int` that stays far below 2 ^ 31.
pub mod Order
pub mod Calls
mod Examples
use kongjaexpress.Prelude.{
  ℕ, zero, suc, ◌+◌, ◌-◌, List, [], ◌∷◌, ◌++◌, Option, none, some, get_or, set, replicate, length,
}

-- `request_priority_max`
abbrev pub priority_max : ℕ
priority_max = 6

pub record RequestItem : Type 0 where
  pub address : ℕ
  pub priority : ℕ

pub record RequestQueue : Type 0 where
  pub queue : List (List RequestItem)
  pub num_reqs : ℕ

abbrev pub request_queue_init : RequestQueue
request_queue_init = record { queue = replicate priority_max []; num_reqs = 0 }

unfoldable pub request_queue_submit : RequestQueue → RequestItem → RequestQueue
request_queue_submit q item = record {
  queue = set q.queue item.priority (get_or q.queue item.priority [] ++ item ∷ []);
  num_reqs = q.num_reqs + 1;
}

-- The loop of `request_queue_schedule` over the lists: the first request of the first list that has
-- one, and the lists after it is taken out.
abbrev pub put_back :
    List RequestItem
    → Option (RequestItem × List (List RequestItem))
    → Option (RequestItem × List (List RequestItem))
put_back is none = none
put_back is (some (item, rest)) = some (item, is ∷ rest)

unfoldable pub schedule_loop :
    List (List RequestItem) → Option (RequestItem × List (List RequestItem))
schedule_loop [] = none
schedule_loop ([] ∷ lists) = put_back [] (schedule_loop lists)
schedule_loop ((item ∷ items) ∷ lists) = some (item, items ∷ lists)

abbrev pub accepted :
    RequestQueue
    → Option (RequestItem × List (List RequestItem))
    → Option RequestItem × RequestQueue
accepted q none = (none, q)
accepted q (some (item, lists)) = (some item, record { queue = lists; num_reqs = q.num_reqs - 1 })

-- The result is what `request_accepted` is called with, if it is.
unfoldable pub request_queue_schedule : RequestQueue → Option RequestItem × RequestQueue
request_queue_schedule q = accepted q (schedule_loop q.queue)

-- The two loops of `reqiest_queue_reset`: what `request_cancelled` is called with, in this order.
unfoldable pub cancelled : List (List RequestItem) → List RequestItem
cancelled [] = []
cancelled (items ∷ lists) = items ++ cancelled lists

unfoldable pub reqiest_queue_reset : RequestQueue → List RequestItem × RequestQueue
reqiest_queue_reset q =
    let items = cancelled q.queue in
    (items, record { queue = replicate (length q.queue) []; num_reqs = q.num_reqs - length items })
