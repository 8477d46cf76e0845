-- ===== src/CircBuffer/Refine.antt =====
-- Any sequence of calls on a circular buffer, against the queue of the bytes that it holds.
use kongjaexpress.Prelude.{ℕ, ◌≡◌, refl, List, [], ◌∷◌, ap, arith, Bool, ◌∙◌, Option}
use kongjaexpress.ByteQueue
use kongjaexpress.ByteQueue.{Op, put_op, get_op, advance_op, peek_op, Reply, status, copied}
use kongjaexpress.CircBuffer.{
  CircBuffer, circ_buffer_put, circ_buffer_get, circ_buffer_advance, circ_buffer_peek,
}
use kongjaexpress.CircBuffer.Inv.{IsValid, put-IsValid, get-IsValid, advance-IsValid}
use kongjaexpress.CircBuffer.Contents.{
  contents, peek-contents, get-contents, advance-contents, put-contents,
}

-- a client's calls in order
pub run : List Op → CircBuffer → List Reply
run [] cb = []
run (put_op buf ∷ ops) cb = let (ok, cb') = circ_buffer_put cb buf in status ok ∷ run ops cb'
run (get_op n ∷ ops) cb = let (out, cb') = circ_buffer_get cb n in copied out ∷ run ops cb'
run (advance_op n ∷ ops) cb = let (ok, cb') = circ_buffer_advance cb n in status ok ∷ run ops cb'
run (peek_op n ∷ ops) cb = copied (circ_buffer_peek cb n) ∷ run ops cb

size-put : (cb : CircBuffer) (buf : List ℕ) → (circ_buffer_put cb buf).1.size ≡ cb.size
unfolding circ_buffer_put
size-put cb buf = ground arith

size-get : (cb : CircBuffer) (n : ℕ) → (circ_buffer_get cb n).1.size ≡ cb.size
unfolding circ_buffer_get
size-get cb n = ground arith

size-advance : (cb : CircBuffer) (n : ℕ) → (circ_buffer_advance cb n).1.size ≡ cb.size
unfolding circ_buffer_advance
size-advance cb n = ground arith

-- From a valid buffer every sequence of puts, gets, advances and peeks returns what the queue of
-- its contents, bounded by its size, returns.
pub run_refines :
    (ops : List Op) {cb : CircBuffer}
    → IsValid cb
    → run ops cb ≡ ByteQueue.run cb.size ops (contents cb)
unfolding run ByteQueue.run
run_refines [] v = refl
run_refines (put_op buf ∷ ops) {cb} v =
    let (r, cb') = circ_buffer_put cb buf in
    ap (λ rs. status r ∷ rs) (run_refines ops (put-IsValid buf v))
    ∙ ap (λ (k : ℕ). status r ∷ ByteQueue.run k ops (contents cb')) (size-put cb buf)
    ∙ ap (λ (q : Bool × List ℕ). status q.0 ∷ ByteQueue.run cb.size ops q.1) (put-contents v buf)
run_refines (get_op n ∷ ops) {cb} v =
    let (r, cb') = circ_buffer_get cb n in
    ap (λ rs. copied r ∷ rs) (run_refines ops (get-IsValid n v))
    ∙ ap (λ (k : ℕ). copied r ∷ ByteQueue.run k ops (contents cb')) (size-get cb n)
    ∙ ap (λ (q : Option (List ℕ) × List ℕ). copied q.0 ∷ ByteQueue.run cb.size ops q.1)
        (get-contents v n)
run_refines (advance_op n ∷ ops) {cb} v =
    let (r, cb') = circ_buffer_advance cb n in
    ap (λ rs. status r ∷ rs) (run_refines ops (advance-IsValid n v))
    ∙ ap (λ (k : ℕ). status r ∷ ByteQueue.run k ops (contents cb')) (size-advance cb n)
    ∙ ap (λ (q : Bool × List ℕ). status q.0 ∷ ByteQueue.run cb.size ops q.1) (advance-contents v n)
run_refines (peek_op n ∷ ops) {cb} v = rw (run_refines ops v, peek-contents v n)
