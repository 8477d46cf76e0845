-- ===== src/RequestQueue/Calls.antt =====
-- Sequences of calls on the queue, against one list in the order of the priorities.
use mathlib.Core.Path.{subst}
use kongjaexpress.Prelude.{
  ℕ, zero, suc, ◌-◌, ◌<◌, ◌≡◌, refl, sym, ap, ap₂, ◌∙◌, List, [], ◌∷◌, Option, none, some, arith,
  replicate, length, length-set,
}
use kongjaexpress.Prelude.Bytes.{All}
use kongjaexpress.RequestQueue.{
  RequestItem, RequestQueue, priority_max, request_queue_init, request_queue_submit, schedule_loop,
  accepted, request_queue_schedule, cancelled, reqiest_queue_reset,
}
use kongjaexpress.RequestQueue.Order.{insert, IsPlaced, submit-insert, Popped, schedule_loop-Popped}

pub record IsValid (q : RequestQueue) : Type 0 where
  pub placed : IsPlaced 0 q.queue
  pub size : length q.queue ≡ priority_max
  pub count : q.num_reqs ≡ length (cancelled q.queue)

-- the calls of the client and of the one that serves the requests
pub data Call : Type 0 where
  submit : RequestItem → Call
  schedule reset : Call

abbrev pub IsCall : Call → Type 0
IsCall (submit item) = item.priority < priority_max
IsCall schedule = Unit
IsCall reset = Unit

abbrev pub listed : Option RequestItem → List RequestItem
listed none = []
listed (some item) = item ∷ []

-- the requests that the callbacks are called with, and the queue
abbrev pub call : Call → RequestQueue → List RequestItem × RequestQueue
call (submit item) q = ([], request_queue_submit q item)
call schedule q = (listed (request_queue_schedule q).0, (request_queue_schedule q).1)
call reset q = reqiest_queue_reset q

-- the same of one list
abbrev pub spec : Call → List RequestItem → List RequestItem × List RequestItem
spec (submit item) xs = ([], insert item xs)
spec schedule [] = ([], [])
spec schedule (x ∷ xs) = (x ∷ [], xs)
spec reset xs = (xs, [])

unfoldable pub calls : List Call → RequestQueue → List (List RequestItem) × RequestQueue
calls [] q = ([], q)
calls (c ∷ cs) q = let (r, q') = call c q in let (rs, q'') = calls cs q' in (r ∷ rs, q'')

unfoldable pub specs : List Call → List RequestItem → List (List RequestItem) × List RequestItem
specs [] xs = ([], xs)
specs (c ∷ cs) xs = let (r, xs') = spec c xs in let (rs, xs'') = specs cs xs' in (r ∷ rs, xs'')

Agrees : List RequestItem × RequestQueue → List RequestItem × List RequestItem → Type 0
Agrees (r, q) (r', xs) = IsValid q × (r ≡ r') × (cancelled q.queue ≡ xs)

accepted-Agrees :
    (q : RequestQueue) (o : Option (RequestItem × List (List RequestItem)))
    → IsValid q
    → Popped 0 q.queue o
    → Agrees (listed (accepted q o).0, (accepted q o).1) (spec schedule (cancelled q.queue))
unfolding Agrees Popped
accepted-Agrees q none v h =
    subst
      (λ xs. IsValid q × ([] ≡ (spec schedule xs).0) × (cancelled q.queue ≡ (spec schedule xs).1))
      (sym h) (v, refl, h)
accepted-Agrees q (some (item, rest)) v h =
    let after : RequestQueue = record { queue = rest; num_reqs = q.num_reqs - 1 } in
    let fewer = ap (λ (t : List RequestItem). length t) h.0 in
    subst
      (λ xs.
        IsValid after
        × (item ∷ [] ≡ (spec schedule xs).0)
        × (cancelled rest ≡ (spec schedule xs).1))
      (sym h.0)
      (
        record { placed = h.1; size = h.2 ∙ v.size; count = omega (arith, v.count, fewer) },
        refl,
        refl,
      )

length-insert :
    (item : RequestItem) (xs : List RequestItem) → length (insert item xs) ≡ suc (length xs)
unfolding insert
length-insert item [] = refl
length-insert item (x ∷ xs) = ground (arith, length-insert item xs)

empty-lists :
    (n p : ℕ)
    → IsPlaced p (replicate n [])
      × (cancelled (replicate n []) ≡ [])
      × (length {A = List RequestItem} (replicate n []) ≡ n)
unfolding IsPlaced cancelled
empty-lists zero p = (tt, refl, refl)
empty-lists (suc n) p =
    let (placed, none_left, size) = empty-lists n (suc p) in ((tt, placed), none_left, ap suc size)

call-Agrees :
    (c : Call) (q : RequestQueue)
    → IsCall c
    → IsValid q
    → Agrees (call c q) (spec c (cancelled q.queue))
unfolding Agrees request_queue_submit request_queue_schedule reqiest_queue_reset
call-Agrees (submit item) q ok v =
    let (same, placed) =
      submit-insert 0 item.priority item q.queue v.placed (omega arith)
        (omega (arith, v.size, ok)) in
    (
      record {
        placed = placed;
        size = length-set q.queue item.priority _ ∙ v.size;
        count = omega (
          arith,
          v.count,
          ap (λ (t : List RequestItem). length t) same,
          length-insert item (cancelled q.queue),
        );
      },
      refl,
      same,
    )
call-Agrees schedule q ok v =
    accepted-Agrees q (schedule_loop q.queue) v (schedule_loop-Popped 0 q.queue v.placed)
call-Agrees reset q ok v =
    let (placed, none_left, size) = empty-lists (length q.queue) 0 in
    (
      record {
        placed = placed;
        size = size ∙ v.size;
        count = omega (arith, v.count, ap (λ (t : List RequestItem). length t) none_left);
      },
      refl,
      none_left,
    )

calls-specs :
    (cs : List Call) (q : RequestQueue)
    → All IsCall cs
    → IsValid q
    → ((calls cs q).0 ≡ (specs cs (cancelled q.queue)).0)
      × (cancelled (calls cs q).1.queue ≡ (specs cs (cancelled q.queue)).1)
      × IsValid (calls cs q).1
unfolding calls specs Agrees
calls-specs [] q ok v = (refl, refl, v)
calls-specs (c ∷ cs) q ok v =
    let (v', r, l) = call-Agrees c q ok.0 v in
    let (rs, ls, v'') = calls-specs cs (call c q).1 ok.1 v' in
    (
      ap₂ (λ x xs. x ∷ xs) r (rs ∙ ap (λ (m : List RequestItem). (specs cs m).0) l),
      ls ∙ ap (λ (m : List RequestItem). (specs cs m).1) l,
      v'',
    )

-- From the initialised queue, any sequence of calls that submit requests of the six priorities,
-- schedule and reset: the callbacks are called with the requests that one list in the order of the
-- priorities gives, first in first out within a priority: a scheduled request is the first of the
-- list, and a reset cancels the whole list in its order. The requests that are left are that list,
-- and `num_reqs` is its length.
pub calls-request_queue_init :
    (cs : List Call)
    → All IsCall cs
    → let q = calls cs request_queue_init in
      let xs = specs cs [] in
      (q.0 ≡ xs.0) × (cancelled q.1.queue ≡ xs.1) × (q.1.num_reqs ≡ length xs.1)
unfolding cancelled
calls-request_queue_init cs ok =
    let (placed, none_left, size) = empty-lists priority_max 0 in
    let (rs, ls, v) =
      calls-specs cs request_queue_init ok
        (record { placed = placed; size = size; count = refl }) in
    (rs, ls, v.count ∙ ap (λ (t : List RequestItem). length t) ls)
