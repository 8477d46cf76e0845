-- ===== src/Modbus/Mbap/Framing.antt =====
-- A stream of frames is cut into exactly those frames, however it is cut into reads.
use kongjaexpress.Prelude.{
  ℕ, zero, suc, ◌+◌, ◌-◌, ◌%◌, ◌^◌, ◌≤◌, ◌<◌, ◌≡◌, ◌≢◌, refl, ap, ◌∙◌, sym, arith, List, [], ◌∷◌,
  ◌++◌, get_or, set, write_at, length-set, get_or-set, get_or-write_at, write_at-append_one,
  append_assoc, last_split, length-append, length-write_at,
}
use kongjaexpress.Prelude
use native.Mathlib.Nat.{sub-zero}
use kongjaexpress.Prelude.Bytes.{word16}
use kongjaexpress.Modbus.Mbap.{
  MbapReader, pdu, fresh, decrement, tcp_pdu_size_max, mbap_reader_reset, mbap_state_machine,
  mbap_reader_feed,
}

-- the bytes of a header
pub record Header : Type 0 where
  pub tid_hi : ℕ
  pub tid_lo : ℕ
  pub pid_hi : ℕ
  pub pid_lo : ℕ
  pub length_hi : ℕ
  pub length_lo : ℕ
  pub uid : ℕ

abbrev pub header_bytes : Header → List ℕ
header_bytes h = h.tid_hi ∷ h.tid_lo ∷ h.pid_hi ∷ h.pid_lo ∷ h.length_hi ∷ h.length_lo ∷ h.uid ∷ []

-- the reader after a header and `n` bytes of data, the data in place
abbrev pub filled : List ℕ → Header → List ℕ → ℕ → MbapReader
filled frame h bytes remaining = record {
  frame = write_at frame 0 (header_bytes h ++ bytes);
  state = pdu;
  tid = word16 h.tid_hi h.tid_lo;
  pid = word16 h.pid_hi h.pid_lo;
  length = word16 h.length_hi h.length_lo;
  uid = h.uid;
  header_remaining = 0;
  data_remaining = remaining;
  ndx = 7 + Prelude.length bytes;
}

module _ {W : Type 0} (cb : MbapReader → W → MbapReader × W) where
  -- Feeding in two calls is feeding in one.
  pub feed-append :
      (xs ys : List ℕ) (r : MbapReader) (w : W)
      → mbap_reader_feed cb r (xs ++ ys) w
        ≡ (let (r', w') = mbap_reader_feed cb r xs w in mbap_reader_feed cb r' ys w')
  unfolding mbap_reader_feed
  feed-append [] ys r w = refl
  feed-append (x ∷ xs) ys r w =
      let (r', w') = mbap_state_machine cb r x w in feed-append xs ys r' w'

  -- the header's bytes as they stand in the frame
  pub header_byte-get_or :
      (frame : List ℕ) (h : Header) (j : ℕ)
      → 260 ≤ Prelude.length frame
      → j < 7
      → get_or (write_at frame 0 (header_bytes h)) j 0 ≡ get_or (header_bytes h) j 0
  header_byte-get_or frame h j room in_header =
      ground (arith, get_or-write_at (header_bytes h) frame 0 j 0, sub-zero j)

  pub feed_header :
      (frame : List ℕ) (h : Header) (rest : List ℕ) (w : W)
      → 260 ≤ Prelude.length frame
      → mbap_reader_feed cb (fresh frame) (header_bytes h ++ rest) w
        ≡ mbap_reader_feed cb
            (filled frame h [] (decrement (word16 h.length_hi h.length_lo)))
            rest
            w
  unfolding mbap_reader_feed mbap_state_machine write_at
  feed_header frame h rest w room =
      let at = λ (j : ℕ) (k : j < 7). header_byte-get_or frame h j room k in
      λ i.
        mbap_reader_feed cb
          (record {
            frame = write_at frame 0 (header_bytes h);
            state = pdu;
            tid = word16 (at 0 (omega arith) i) (at 1 (omega arith) i);
            pid = word16 (at 2 (omega arith) i) (at 3 (omega arith) i);
            length = word16 (at 4 (omega arith) i) (at 5 (omega arith) i);
            uid = at 6 (omega arith) i;
            header_remaining = 0;
            data_remaining = decrement (word16 (at 4 (omega arith) i) (at 5 (omega arith) i));
            ndx = 7;
          })
          rest w

  -- what one more byte of data does to the frame and its index
  one_more :
      (frame : List ℕ) (h : Header) (got : List ℕ) (x : ℕ)
      → (set (write_at frame 0 (header_bytes h ++ got)) (7 + Prelude.length got) x
          ≡ write_at frame 0 (header_bytes h ++ (got ++ x ∷ [])))
        × (7 + Prelude.length got + 1 ≡ 7 + Prelude.length (got ++ x ∷ []))
  one_more frame h got x = (
    ap (λ (k : ℕ). set (write_at frame 0 (header_bytes h ++ got)) k x) at_end
        ∙ sym (write_at-append_one (header_bytes h ++ got) frame 0 x)
        ∙ ap (write_at frame 0) (append_assoc (header_bytes h) got (x ∷ [])),
    omega (arith, length-append got (x ∷ [])),
  )
    where
      at_end : 7 + Prelude.length got ≡ 0 + Prelude.length (header_bytes h ++ got)
      at_end = omega arith

  -- a byte of data that is not the last
  next_byte :
      (frame : List ℕ) (h : Header) (got : List ℕ) (x n : ℕ) (w : W)
      → 7 + Prelude.length got < tcp_pdu_size_max
      → n < 300
      → mbap_state_machine cb (filled frame h got (suc (suc n))) x w
        ≡ (filled frame h (got ++ x ∷ []) (suc n), w)
  unfolding mbap_state_machine
  next_byte frame h got x n w room few = ground (arith, one_more frame h got x)

  last_byte :
      (frame : List ℕ) (h : Header) (got : List ℕ) (x : ℕ) (w : W)
      → 7 + Prelude.length got < tcp_pdu_size_max
      → mbap_state_machine cb (filled frame h got 1) x w
        ≡ (let (r, w') = cb (filled frame h (got ++ x ∷ []) 0) w in (mbap_reader_reset r, w'))
  unfolding mbap_state_machine
  last_byte frame h got x w room = ground (arith, one_more frame h got x)

  -- the data, its last byte apart
  feed_data :
      (xs : List ℕ) (frame : List ℕ) (h : Header) (got : List ℕ) (x : ℕ) (w : W)
      → 7 + Prelude.length got + Prelude.length xs < tcp_pdu_size_max
      → mbap_reader_feed cb (filled frame h got (suc (Prelude.length xs))) (xs ++ x ∷ []) w ≡ (
          let (r, w') = cb (filled frame h (got ++ (xs ++ x ∷ [])) 0) w in
          (mbap_reader_reset r, w'))
  unfolding mbap_reader_feed
  feed_data [] frame h got x w room = rw (last_byte frame h got x w (omega arith))
  feed_data (y ∷ xs) frame h got x w room =
      rw
        (
          next_byte frame h got y (Prelude.length xs) w (omega arith) (omega arith),
          mbap_reader_feed,
        )
        (feed_data xs frame h (got ++ y ∷ []) x w (omega (arith, length-append got (y ∷ [])))
          ∙ ap (λ bs. let (r, w') = cb (filled frame h bs 0) w in (mbap_reader_reset r, w'))
              (append_assoc got (y ∷ []) (xs ++ x ∷ [])))

  -- what a frame that arrives on a reset reader calls, and the reader that it leaves
  abbrev pub deliver : List ℕ → Header → List ℕ → W → MbapReader × W
  deliver frame h bytes w = let (r, w') = cb (filled frame h bytes 0) w in (fresh r.frame, w')

  -- A header whose length field is one more than the number of data bytes, with 1 to 253 of them,
  -- followed by the data: the callback is called exactly once, with the decoded header and the
  -- data in the frame, and the reader waits for the next header.
  pub feed_frame :
      (frame : List ℕ) (h : Header) (bytes : List ℕ) (w : W)
      → 260 ≤ Prelude.length frame
      → word16 h.length_hi h.length_lo ≡ Prelude.length bytes + 1
      → 1 ≤ Prelude.length bytes
      → Prelude.length bytes ≤ 253
      → mbap_reader_feed cb (fresh frame) (header_bytes h ++ bytes) w ≡ deliver frame h bytes w
  feed_frame frame h bytes w room len some_data short =
      let (ys, y, e) = last_split bytes some_data in
      let size : Prelude.length bytes ≡ Prelude.length ys + 1 =
        ap Prelude.length e ∙ length-append ys (y ∷ []) in
      let count : decrement (word16 h.length_hi h.length_lo) ≡ suc (Prelude.length ys) =
        omega arith in
      feed_header frame h bytes w room
      ∙ ap (λ (n : ℕ). mbap_reader_feed cb (filled frame h [] n) bytes w) count
      ∙ ap (λ bs. mbap_reader_feed cb (filled frame h [] (suc (Prelude.length ys))) bs w) e
      ∙ feed_data ys frame h [] y w (omega arith)
      ∙ ap (λ bs. let (r, w') = cb (filled frame h bs 0) w in (mbap_reader_reset r, w')) (sym e)
      ∙ (unfold mbap_reader_reset in refl)
