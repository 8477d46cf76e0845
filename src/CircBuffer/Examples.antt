-- ===== src/CircBuffer/Examples.antt =====
-- The circular buffer at concrete inputs.
use kongjaexpress.Prelude.{◌≡◌, refl, List, [], ◌∷◌, true, false, none, some, arith}
use kongjaexpress.ByteQueue
use kongjaexpress.ByteQueue.{Op, put_op, get_op, advance_op, peek_op, Reply, status, copied}
use kongjaexpress.CircBuffer.{CircBuffer}
use kongjaexpress.CircBuffer.Inv.{IsValid}
use kongjaexpress.CircBuffer.Contents.{contents}
use kongjaexpress.CircBuffer.Refine.{run, run_refines}

-- 6, then 9, round the end of the storage
abbrev wrapped : CircBuffer
wrapped = record { buffer = some (9 ∷ 7 ∷ 8 ∷ 6 ∷ []); size = 4; data_size = 2; begin = 3; end = 1 }

abbrev script : List Op
script =
    put_op (1 ∷ 2 ∷ 3 ∷ [])
    ∷ put_op (1 ∷ 2 ∷ [])
    ∷ peek_op 3
    ∷ advance_op 1
    ∷ get_op 3
    ∷ get_op 1
    ∷ []

wrapped-IsValid : IsValid wrapped
wrapped-IsValid = omega arith

run_refines_example : run script wrapped ≡ ByteQueue.run 4 script (contents wrapped)
run_refines_example = run_refines script wrapped-IsValid

queue_script :
    ByteQueue.run 4 script (6 ∷ 9 ∷ [])
    ≡ status false
      ∷ status true
      ∷ copied (some (6 ∷ 9 ∷ 1 ∷ []))
      ∷ status true
      ∷ copied (some (9 ∷ 1 ∷ 2 ∷ []))
      ∷ copied none
      ∷ []
unfolding ByteQueue.run
queue_script = refl
