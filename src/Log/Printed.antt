-- ===== src/Log/Printed.antt =====
-- The lines that are printed are the lines that were sent.
use kongjaexpress.Prelude.{
  ℕ, ◌≤◌, ◌<◌, ◌≡◌, refl, sym, ap, ◌∙◌, arith, List, [], ◌∷◌, ◌++◌, Bool, true, false, ◌&&◌, ltb,
  length, take, count, append_assoc, append-nil,
}
use kongjaexpress.Task.{Task, task_notify, task_queue_add}
use kongjaexpress.Task.Threads.{assign}
use kongjaexpress.ItemPool
use kongjaexpress.ItemPool.{
  Step, ItemPool, item_pool_init, item_pool_get, item_pool_put, item_pool_notify, consume_buffer,
  first, __put_item_pool_buffer,
}
use kongjaexpress.ItemPool.Whole.{
  IsWhole, held_only, IsUnused, Step-IsWhole, init-IsWhole, init_same_task,
}
use kongjaexpress.Stream.Queue.{take_whole}
use kongjaexpress.Log.{
  Log, log_buffer_num_elem, log_init, log_get, log_finish, notify_or_put, debug_log, LogStep,
  LogReach, get, finish, wake, consume, here, next, log_buffer_size,
}

-- what buffers hold
unfoldable pub texts : (ℕ → List ℕ) → List ℕ → List (List ℕ)
texts f [] = []
texts f (b ∷ bs) = f b ∷ texts f bs

texts-append : (f : ℕ → List ℕ) (xs ys : List ℕ) → texts f (xs ++ ys) ≡ texts f xs ++ texts f ys
unfolding texts
texts-append f [] ys = refl
texts-append f (x ∷ xs) ys = ap (λ (t : List (List ℕ)). f x ∷ t) (texts-append f xs ys)

texts-assign :
    (f : ℕ → List ℕ) (b : ℕ) (v : List ℕ) (xs : List ℕ)
    → count b xs ≡ 0
    → texts (assign b v f) xs ≡ texts f xs
unfolding texts count
texts-assign f b v [] h = refl
texts-assign f b v (x ∷ xs) h = ground (arith, texts-assign f b v xs)

-- the lines that are still to be printed
abbrev pub waiting : Log → List (List ℕ)
waiting s = texts s.buffers s.pool.task.tmp_list ++ texts s.buffers s.pool.task.msgs

pub record IsLogged (n : ℕ) (s : Log) : Type 0 where
  pub whole : IsWhole n s.pool
  pub order : s.printed ++ waiting s ≡ s.sent

formatted :
    (n : ℕ) (s : Log) (b : ℕ) (v : List ℕ)
    → IsLogged n s
    → 1 ≤ count b s.pool.held
    → s.printed ++ waiting (record s { buffers = assign b v s.buffers }) ≡ s.sent
formatted n s b v l h =
    let (tmp, msgs) = held_only n b s.pool l.whole h in
    (λ i.
      s.printed
      ++ (texts-assign s.buffers b v s.pool.task.tmp_list tmp i
          ++ texts-assign s.buffers b v s.pool.task.msgs msgs i))
    ∙ l.order

regroup : (xs ys zs ws : List (List ℕ)) → xs ++ (ys ++ (zs ++ ws)) ≡ (xs ++ (ys ++ zs)) ++ ws
regroup xs ys zs ws =
    sym
      (append_assoc xs (ys ++ zs) ws ∙ ap (λ (t : List (List ℕ)). xs ++ t) (append_assoc ys zs ws))

-- A line that fits goes behind the lines that wait.
notified :
    (n : ℕ) (s : Log) (b : ℕ) (text : List ℕ)
    → IsLogged n s
    → 1 ≤ count b s.pool.held
    → length text < log_buffer_size
    → let f = assign b (take 255 text) s.buffers in
      s.printed ++ (texts f s.pool.task.tmp_list ++ texts f (s.pool.task.msgs ++ b ∷ []))
      ≡ s.sent ++ text ∷ []
unfolding texts
notified n s b text l h fits =
    let f = assign b (take 255 text) s.buffers in
    let tmp = texts f s.pool.task.tmp_list in
    let line : f b ≡ text = ground (arith, take_whole 255 text (omega arith)) in
    (λ i. s.printed ++ (tmp ++ texts-append f s.pool.task.msgs (b ∷ []) i))
    ∙ (λ i. s.printed ++ (tmp ++ (texts f s.pool.task.msgs ++ line i ∷ [])))
    ∙ regroup s.printed tmp (texts f s.pool.task.msgs) (text ∷ [])
    ∙ ap (λ (t : List (List ℕ)). t ++ text ∷ []) (formatted n s b (take 255 text) l h)

finish-IsLogged :
    (n : ℕ) (s : Log) (b : ℕ) (text : List ℕ) (fits ok : Bool)
    → (fits ≡ true → length text < log_buffer_size)
    → IsLogged n s
    → 1 ≤ count b s.pool.held
    → IsLogged n
        (notify_or_put fits ok b text (record s { buffers = assign b (take 255 text) s.buffers }))
unfolding item_pool_notify task_notify task_queue_add item_pool_put __put_item_pool_buffer
finish-IsLogged n s b text true true short l h = record {
  whole = Step-IsWhole n l.whole (ItemPool.notify true b h);
  order = notified n s b text l h (short refl);
}
finish-IsLogged n s b text true false short l h = record {
  whole = Step-IsWhole n l.whole (ItemPool.notify false b h);
  order = formatted n s b (take 255 text) l h;
}
finish-IsLogged n s b text false ok short l h = record {
  whole = Step-IsWhole n l.whole (ItemPool.put b h);
  order = formatted n s b (take 255 text) l h;
}

get-task : (pool : ItemPool) (free : List ℕ) → (first pool free).1.task ≡ pool.task
get-task pool [] = refl
get-task pool (b ∷ rest) = refl

step-IsLogged : (n : ℕ) {s s' : Log} → IsLogged n s → LogStep s s' → IsLogged n s'
unfolding log_get log_finish debug_log item_pool_get consume_buffer __put_item_pool_buffer texts
step-IsLogged n {s} l get = record {
  whole = Step-IsWhole n l.whole ItemPool.get;
  order =
      (λ i.
        let t = get-task s.pool s.pool.free_buffer_list i in
        s.printed ++ (texts s.buffers t.tmp_list ++ texts s.buffers t.msgs))
      ∙ l.order;
}
step-IsLogged n {s} l (finish ok b text h) =
    finish-IsLogged n s b text (ltb 0 (length text) && ltb (length text) log_buffer_size) ok
      (ground arith) l h
step-IsLogged n {s} l (wake on done) = record {
  whole = Step-IsWhole n l.whole (ItemPool.wake on done);
  order =
      let msgs = texts s.buffers s.pool.task.msgs in
      (λ i. s.printed ++ append-nil msgs i)
      ∙ sym (ap (λ (t : List ℕ). s.printed ++ (texts s.buffers t ++ msgs)) done)
      ∙ l.order;
}
step-IsLogged n {s} l (consume b rest e) = record {
  whole = Step-IsWhole n l.whole (ItemPool.consume b rest e);
  order =
      let msgs = texts s.buffers s.pool.task.msgs in
      append_assoc s.printed (s.buffers b ∷ []) (texts s.buffers rest ++ msgs)
      ∙ sym (ap (λ (t : List ℕ). s.printed ++ (texts s.buffers t ++ msgs)) e)
      ∙ l.order;
}

-- what no thread has logged to
pub record IsFresh (task : Task ℕ) (s : Log) : Type 0 where
  pub unused : IsUnused task s.pool
  pub no_line : s.printed ≡ []
  pub no_message : s.sent ≡ []

init-IsLogged :
    (task : Task ℕ) (s : Log) → IsFresh task s → IsLogged log_buffer_num_elem (log_init task s)
unfolding log_init texts
init-IsLogged task s u = record {
  whole = init-IsWhole task s.pool log_buffer_num_elem u.unused;
  order =
      let same = init_same_task task s.pool log_buffer_num_elem in
      (λ i. u.no_line i ++ (texts s.buffers (same i).tmp_list ++ texts s.buffers (same i).msgs))
      ∙ (λ i. texts s.buffers (u.unused.no_tmp i) ++ texts s.buffers (u.unused.no_queue i))
      ∙ sym u.no_message;
}

reach-IsLogged : (n : ℕ) {s s' : Log} → IsLogged n s → LogReach s s' → IsLogged n s'
reach-IsLogged n l here = l
reach-IsLogged n l (next r step) = step-IsLogged n (reach-IsLogged n l r) step

-- After `log_init`, for a task with no messages and a log that was not used, threads and the task of
-- the log do any steps in any order: threads take buffers, format lines of any length and send or give
-- back the buffers, and the task wakes and prints. Then what was printed, followed by the lines that
-- wait in the task's queues, is what was sent, each line once, whole and in the order of the sends;
-- and each of the 128 buffers is in exactly one place.
pub Reach-IsLogged :
    (task : Task ℕ) (s s' : Log)
    → IsFresh task s
    → LogReach (log_init task s) s'
    → (s'.printed ++ waiting s' ≡ s'.sent) × IsWhole log_buffer_num_elem s'.pool
Reach-IsLogged task s s' u r =
    let l = reach-IsLogged log_buffer_num_elem (init-IsLogged task s u) r in (l.order, l.whole)
