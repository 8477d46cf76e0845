-- ===== src/RequestQueue/Examples.antt =====
-- Three requests, the most urgent one submitted last.
use kongjaexpress.Prelude.{◌≡◌, refl, List, [], ◌∷◌, length, arith}
use kongjaexpress.RequestQueue.{
  RequestItem, request_queue_init, request_queue_submit, schedule_loop, request_queue_schedule,
  cancelled, reqiest_queue_reset,
}
use kongjaexpress.RequestQueue.Calls.{
  Call, submit, schedule, reset, calls, specs, calls-request_queue_init,
}

abbrev late : RequestItem
late = record { address = 1; priority = 3 }

abbrev later : RequestItem
later = record { address = 2; priority = 3 }

abbrev urgent : RequestItem
urgent = record { address = 3; priority = 0 }

abbrev script : List Call
script = submit late ∷ submit later ∷ submit urgent ∷ schedule ∷ schedule ∷ reset ∷ schedule ∷ []

script_test :
    (calls script request_queue_init).0
    ≡ [] ∷ [] ∷ [] ∷ (urgent ∷ []) ∷ (late ∷ []) ∷ (later ∷ []) ∷ [] ∷ []
unfolding calls request_queue_submit request_queue_schedule schedule_loop reqiest_queue_reset
    cancelled
script_test = refl

calls-request_queue_init_example :
    let q = calls script request_queue_init in
    let xs = specs script [] in
    (q.0 ≡ xs.0) × (cancelled q.1.queue ≡ xs.1) × (q.1.num_reqs ≡ length xs.1)
calls-request_queue_init_example =
    calls-request_queue_init script
      (omega arith, (omega arith, (omega arith, (tt, (tt, (tt, (tt, tt)))))))
