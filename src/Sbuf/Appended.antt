-- ===== src/Sbuf/Appended.antt =====
-- What an array holds after calls that write to it and read from it.
use kongjaexpress.Prelude.{
  ℕ, ◌+◌, ◌%◌, ◌^◌, ◌≤◌, ◌<◌, ◌≡◌, refl, ◌∙◌, ap, arith, List, [], ◌∷◌, ◌++◌, Bool, true, false,
  none, ltb, if◌then◌else◌, length, take, write_at, length-write_at, length-append, take-write_at,
}
use kongjaexpress.Prelude.Bytes.{All}
use kongjaexpress.Sbuf.{Sbuf, sbuf_init, sbuf_read, sbuf_write, sbuf_is_write_possible}

pub data Call : Type 0 where
  writes : List ℕ → Call
  reads : ℕ → Call

unfoldable pub call : Call → Sbuf → Sbuf
call (writes bytes) s = (sbuf_write s bytes).1
call (reads n) s = (sbuf_read s n).1

unfoldable pub calls : List Call → Sbuf → Sbuf
calls [] s = s
calls (c ∷ cs) s = calls cs (call c s)

-- what a list of bytes with fewer than `len` bytes becomes
unfoldable pub append : ℕ → List ℕ → Call → List ℕ
append len held (writes bytes) =
    if ltb (length held + length bytes) len then held ++ bytes else held
append len held (reads n) = held

unfoldable pub append_all : ℕ → List ℕ → List Call → List ℕ
append_all len held [] = held
append_all len held (c ∷ cs) = append_all len (append len held c) cs

-- the bytes of one call are fewer than 2 ^ 31, as its size is an `int`
abbrev pub IsSmall : Call → Type 0
IsSmall (writes bytes) = length bytes < 2 ^ 31
IsSmall (reads n) = n < 2 ^ 31

pub record Holds (len : ℕ) (held : List ℕ) (s : Sbuf) : Type 0 where
  pub size : s.len ≡ len
  pub room : length s.buf ≡ len
  pub small : len ≤ 2 ^ 31
  pub at : s.write_ndx ≡ length held
  pub fits : length held ≤ len
  pub contents : take s.write_ndx s.buf ≡ held
  pub nothing : s.data_len ≡ 0
  pub start : s.read_ndx ≡ 0

read_fails : (s : Sbuf) (n : ℕ) → s.data_len ≡ 0 → sbuf_read s n ≡ (none, s)
unfolding sbuf_read
read_fails s n h = rw h (ground arith)

-- A write with room for more than its bytes puts them behind the others.
accepted-Holds :
    (len : ℕ) (held : List ℕ) (s : Sbuf) (bytes : List ℕ)
    → length held + length bytes < len
    → Holds len held s
    → Holds len (held ++ bytes) (record s {
      buf = write_at s.buf s.write_ndx bytes;
      write_ndx = (s.write_ndx + length bytes) % 2 ^ 32;
    })
accepted-Holds len held s bytes few h =
    let count = length-append held bytes in
    let next : (s.write_ndx + length bytes) % 2 ^ 32 ≡ s.write_ndx + length bytes =
      omega (arith, h.at, h.small) in
    record {
      size = h.size;
      room = length-write_at bytes s.buf s.write_ndx ∙ h.room;
      small = h.small;
      at = omega (arith, next, count, h.at);
      fits = omega (arith, count);
      contents =
          ap (λ (n : ℕ). take n (write_at s.buf s.write_ndx bytes)) next
          ∙ take-write_at bytes s.buf s.write_ndx (omega (arith, h.at, h.room))
          ∙ ap (λ (t : List ℕ). t ++ bytes) h.contents;
      nothing = h.nothing;
      start = h.start;
    }

write-Holds :
    (len : ℕ) (held : List ℕ) (s : Sbuf) (bytes : List ℕ)
    → length bytes < 2 ^ 31
    → Holds len held s
    → Holds len (append len held (writes bytes)) (sbuf_write s bytes).1
unfolding sbuf_write append
write-Holds len held s bytes few h =
    let after = record s {
      buf = write_at s.buf s.write_ndx bytes;
      write_ndx = (s.write_ndx + length bytes) % 2 ^ 32;
    } in
    let test : sbuf_is_write_possible s (length bytes) ≡ ltb (length held + length bytes) len =
      ground (arith, h.at, h.size, h.small, h.fits) in
    rw test (
      elim (ltb (length held + length bytes) len)
          as (λ b.
            ltb (length held + length bytes) len ≡ b
            → Holds len (if b then held ++ bytes else held)
                (if◌then◌else◌ {A = Bool × Sbuf} b (true, after) (false, s)).1) [
                  | true ↦ λ e. accepted-Holds len held s bytes (ground arith) h
                  | false ↦ λ e. h
                ]
        refl)

calls-Holds :
    (cs : List Call) (len : ℕ) (held : List ℕ) (s : Sbuf)
    → All IsSmall cs
    → Holds len held s
    → Holds len (append_all len held cs) (calls cs s)
unfolding calls call append_all append
calls-Holds [] len held s small h = h
calls-Holds (writes bytes ∷ cs) len held s small h =
    calls-Holds cs len (append len held (writes bytes)) (sbuf_write s bytes).1 small.1
      (write-Holds len held s bytes small.0 h)
calls-Holds (reads n ∷ cs) len held s small h =
    calls-Holds cs len held (sbuf_read s n).1 small.1 (rw (read_fails s n h.nothing) h)

-- An array of `len` bytes, at most 2 ^ 31, is set up, and bytes are written and read in any order,
-- fewer than 2 ^ 31 at a time. Then the array has the bytes of the writes in their order, each write
-- whole or not at all: a write is made if the array has then fewer than `len` bytes. The array keeps
-- its size. Every read fails and changes nothing.
pub calls-sbuf_init :
    (cs : List Call) (buf : List ℕ) (n : ℕ)
    → length buf ≤ 2 ^ 31
    → All IsSmall cs
    → let s = calls cs (sbuf_init buf (length buf)) in
      (take s.write_ndx s.buf ≡ append_all (length buf) [] cs)
      × (length s.buf ≡ length buf)
      × (s.write_ndx ≤ length buf)
      × (sbuf_read s n ≡ (none, s))
unfolding sbuf_init
calls-sbuf_init cs buf n small few =
    let h = calls-Holds cs (length buf) [] (sbuf_init buf (length buf)) few (record {
      size = refl;
      room = refl;
      small = small;
      at = refl;
      fits = omega arith;
      contents = refl;
      nothing = refl;
      start = refl;
    }) in
    let s = calls cs (sbuf_init buf (length buf)) in
    (h.contents, h.room, omega (arith, h.at, h.fits), read_fails s n h.nothing)
