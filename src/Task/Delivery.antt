-- ===== src/Task/Delivery.antt =====
-- Every message is run once, in the order in which the messages were added.
use kongjaexpress.Prelude.{
  ◌%◌, ◌^◌, ◌≤◌, ◌≡◌, ◌⊎◌, inl, inr, refl, sym, ap, ap₂, nil_of_length, ◌∙◌, List, [], ◌∷◌, ◌++◌,
  true, false, if◌then◌else◌, arith, length, length-append, append_assoc, append-nil,
}
use kongjaexpress.Task.{
  Task, task_queue_add, take_all, handle, handle_all, task_queue_noti_callback, Step, add, send,
  wake, run, Reach, here, next, loop,
}

module _ {Msg : Type 0} where
  -- No message is lost, doubled or overtaken; the count is that of the queue; and a queue with
  -- messages has a callback due or a thread that is about to make it due.
  pub record IsKept (t : Task Msg) : Type 0 where
    pub order : t.ran ++ t.tmp_list ++ t.msgs ≡ t.notified
    pub count : t.num_msgs ≡ length t.msgs % 2 ^ 32
    pub due : (1 ≤ length t.msgs) → (t.async ≡ true) ⊎ (1 ≤ t.sending)

  Step-IsKept : {t t' : Task Msg} → IsKept t → Step t t' → IsKept t'
  unfolding task_queue_add
  Step-IsKept {t} k (add m) = record {
    order =
        sym (append_assoc (t.ran ++ t.tmp_list) t.msgs (m ∷ []))
        ∙ ap (λ (l : List Msg). l ++ m ∷ []) k.order;
    count = omega (arith, k.count, length-append t.msgs (m ∷ []));
    due = λ h. inr (omega arith);
  }
  Step-IsKept {t} k (send h) = record { order = k.order; count = k.count; due = λ h. inl refl }
  Step-IsKept {t} k (wake on done) = record {
    order =
        append-nil (t.ran ++ t.msgs)
        ∙ sym (
            ap (λ (l : List Msg). l ++ t.msgs)
              (ap (λ (l : List Msg). t.ran ++ l) done ∙ append-nil t.ran))
        ∙ k.order;
    count = refl;
    due = λ h. absurd (omega arith);
  }
  Step-IsKept {t} k (run m rest e) = record {
    order =
        ap (λ (l : List Msg). l ++ t.msgs)
          (append_assoc t.ran (m ∷ []) rest ∙ sym (ap (λ (l : List Msg). t.ran ++ l) e))
        ∙ k.order;
    count = k.count;
    due = k.due;
  }

  -- From a state that is kept, and after any steps of the threads in any order: the messages that
  -- were run, followed by those that the callback has taken and those in the queue, are the messages
  -- that were added, in that order; `num_msgs` is the length of the queue, up to 2 ^ 32; and while
  -- the queue has messages, the callback is due or a thread is about to make it due.
  pub Reach-IsKept : {t t' : Task Msg} → IsKept t → Reach t t' → IsKept t'
  Reach-IsKept k here = k
  Reach-IsKept k (next r s) = Step-IsKept (Reach-IsKept k r) s

  handle_all-ran : (ms : List Msg) (t : Task Msg) → (handle_all ms t).ran ≡ t.ran ++ ms
  unfolding handle_all
  handle_all-ran [] t = sym (append-nil t.ran)
  handle_all-ran (m ∷ ms) t = handle_all-ran ms (handle t m ms) ∙ append_assoc t.ran (m ∷ []) ms

  handle_all-rest :
      (ms : List Msg) (t : Task Msg)
      → ((handle_all ms t).msgs ≡ t.msgs) × ((handle_all ms t).async ≡ t.async)
  unfolding handle_all
  handle_all-rest [] t = (refl, refl)
  handle_all-rest (m ∷ ms) t = handle_all-rest ms (handle t m ms)

  -- No thread is about to wake the task any more: its loop, from any state that is kept, runs every
  -- message that was added and was not run yet, each once and in the order of the additions.
  pub loop-ran : (t : Task Msg) → IsKept t → t.sending ≡ 0 → (loop t).ran ≡ t.notified
  unfolding loop task_queue_noti_callback
  loop-ran t k quiet =
      let t' = handle_all t.tmp_list t in
      let (same_msgs, same_async) = handle_all-rest t.tmp_list t in
      let done = handle_all-ran t.tmp_list t in
      elim t'.async
          as (λ b.
            t'.async ≡ b → (if b then handle_all t'.msgs (take_all t') else t').ran ≡ t.notified) [
              | true ↦ λ e.
                  handle_all-ran t'.msgs (take_all t')
                  ∙ ap₂ (λ (xs ys : List Msg). xs ++ ys) done same_msgs
                  ∙ k.order
              | false ↦ λ e.
                  let nothing : t.msgs ≡ [] =
                    nil_of_length t.msgs (ground (arith, k.due, same_async, e, quiet)) in
                  done
                  ∙ sym (append-nil (t.ran ++ t.tmp_list))
                  ∙ ap (λ (l : List Msg). t.ran ++ t.tmp_list ++ l) (sym nothing)
                  ∙ k.order
            ]
        refl
