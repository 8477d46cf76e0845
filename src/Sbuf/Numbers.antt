-- ===== src/Sbuf/Numbers.antt =====
-- A number is read as it was written.
use kongjaexpress.Prelude.{
  ℕ, ◌+◌, ◌^◌, ◌≤◌, ◌<◌, ◌≡◌, refl, sym, ◌∙◌, ap, arith, List, [], ◌∷◌, true, some, length, read_at,
  write_at, drop-take-write_at, drop-take_lem,
}
use kongjaexpress.Sbuf.{
  Sbuf, sbuf_write, sbuf_read, octets16, octets32, sbuf_write_u8, sbuf_write_u16, sbuf_write_u32,
  sbuf_read_u8, sbuf_read_u16, sbuf_read_u32,
}

-- A buffer from the place where it was written to, all of its bytes being data.
abbrev pub rewound : Sbuf → Sbuf → Sbuf
rewound before after = record after { read_ndx = before.write_ndx; data_len = after.len }

module _ (s : Sbuf) (fits : s.len ≤ length s.buf) (small : s.len < 2 ^ 32) where
  -- The bytes of a write that is made are read back.
  read-write :
      (bytes : List ℕ)
      → s.write_ndx + length bytes < s.len
      → ((sbuf_write s bytes).0 ≡ true)
        × ((sbuf_read (rewound s (sbuf_write s bytes).1) (length bytes)).0 ≡ some bytes)
  unfolding sbuf_write sbuf_read
  read-write bytes room =
      let block : read_at (write_at s.buf s.write_ndx bytes) s.write_ndx (length bytes) ≡ bytes =
        sym (drop-take_lem s.write_ndx (length bytes) (write_at s.buf s.write_ndx bytes))
        ∙ drop-take-write_at bytes s.buf s.write_ndx (omega arith) in
      (ground arith, ground (arith, block))

  -- A number of 8, 16 or 32 bits is written where more than its bytes are left before the end of the
  -- array. If all bytes count as data, a read of that size from the same place gives the number.
  pub read_number-write :
      (v : ℕ)
      → s.write_ndx + 4 < s.len
      → (v < 2 ^ 8 → (sbuf_read_u8 (rewound s (sbuf_write_u8 s v).1)).0 ≡ some v)
        × (v < 2 ^ 16 → (sbuf_read_u16 (rewound s (sbuf_write_u16 s v).1)).0 ≡ some v)
        × (v < 2 ^ 32 → (sbuf_read_u32 (rewound s (sbuf_write_u32 s v).1)).0 ≡ some v)
  unfolding sbuf_read_u8 sbuf_read_u16 sbuf_read_u32 sbuf_write_u8 sbuf_write_u16 sbuf_write_u32
  read_number-write v room = (
    λ h. rw ((read-write (v ∷ []) (omega arith)).1) refl,
    λ h. rw ((read-write (octets16 v) (omega arith)).1) (ap some (omega arith)),
    λ h. rw ((read-write (octets32 v) (omega arith)).1) (ap some (omega arith)),
  )
