-- ===== src/Sbuf/Examples.antt =====
-- An array of eight bytes.
use kongjaexpress.Prelude.{
  ℕ, ◌≤◌, ◌≡◌, refl, arith, List, [], ◌∷◌, none, take, length, replicate, write_at,
}
use kongjaexpress.Sbuf.{sbuf_init, sbuf_read, sbuf_write_u16, sbuf_write}
use kongjaexpress.Sbuf.Appended.{Call, writes, reads, calls, append, append_all, calls-sbuf_init}

abbrev eight : List ℕ
eight = replicate 8 0

written : (sbuf_write_u16 (sbuf_init eight 8) 0x1234).1.buf ≡ 0x12 ∷ 0x34 ∷ replicate 6 0
unfolding sbuf_write_u16 sbuf_write sbuf_init write_at
written = refl

-- The last byte is never written: eight bytes are too many for eight.
abbrev script : List Call
script = writes (1 ∷ 2 ∷ 3 ∷ []) ∷ reads 1 ∷ writes (replicate 5 9) ∷ writes (4 ∷ 5 ∷ []) ∷ []

script_appended : append_all 8 [] script ≡ 1 ∷ 2 ∷ 3 ∷ 4 ∷ 5 ∷ []
unfolding append_all append
script_appended = refl

calls-sbuf_init_example :
    let s = calls script (sbuf_init eight 8) in
    (take s.write_ndx s.buf ≡ append_all 8 [] script)
    × (length s.buf ≡ 8)
    × (s.write_ndx ≤ 8)
    × (sbuf_read s 1 ≡ (none, s))
calls-sbuf_init_example =
    calls-sbuf_init script eight 1 (omega arith)
      (omega arith, (omega arith, (omega arith, (omega arith, tt))))
