-- ===== src/Modbus/Mbap/Resync.antt =====
-- A header whose length field fits no frame: the reader swallows 254 bytes and starts afresh.
use kongjaexpress.Prelude.{
  ℕ, zero, suc, ◌+◌, ◌-◌, ◌%◌, ◌^◌, ◌≤◌, ◌<◌, ◌≡◌, ◌≢◌, ◌⊎◌, refl, ap, ◌∙◌, arith, List, [], ◌∷◌,
  ◌++◌, length-set, length-write_at,
}
use kongjaexpress.Prelude
use kongjaexpress.Prelude.Bytes.{word16}
use kongjaexpress.Modbus.Mbap.{
  MbapReader, pdu, fresh, decrement, tcp_pdu_size_max, mbap_state_machine, mbap_reader_feed,
}
use kongjaexpress.Modbus.Mbap.Framing.{Header, header_bytes, filled, feed_header, feed-append}

-- Fewer than `n` decrements do not bring the count to 0.
abbrev Misses : ℕ → ℕ → Type 0
Misses d n = (d ≡ 0) ⊎ (n < d)

module _ {W : Type 0} (cb : MbapReader → W → MbapReader × W) where
  -- what a byte of such a frame leaves as it should be
  record Swallowed (r : MbapReader) (n : ℕ) (w : W) (after : MbapReader × W) : Type 0 where
    in_data : after.0.state ≡ pdu
    moved : after.0.ndx ≡ r.ndx + n
    sized : Prelude.length after.0.frame ≡ Prelude.length r.frame
    untouched : after.1 ≡ w

  swallow_one :
      (r : MbapReader) (x n : ℕ) (w : W)
      → r.state ≡ pdu
      → r.ndx < tcp_pdu_size_max
      → r.data_remaining < 2 ^ 32
      → n < 300
      → Misses r.data_remaining (suc n)
      → let after = mbap_state_machine cb r x w in
        Swallowed r 1 w after × (after.0.data_remaining < 2 ^ 32) × Misses after.0.data_remaining n
  unfolding mbap_state_machine
  swallow_one r x n w s room small few miss = ground (arith, length-set r.frame r.ndx x)

  swallow :
      (xs : List ℕ) (r : MbapReader) (w : W)
      → r.state ≡ pdu
      → r.ndx + Prelude.length xs ≤ tcp_pdu_size_max
      → r.data_remaining < 2 ^ 32
      → Misses r.data_remaining (Prelude.length xs)
      → Swallowed r (Prelude.length xs) w (mbap_reader_feed cb r xs w)
  unfolding mbap_reader_feed
  swallow [] r w s room small miss = record {
    in_data = s;
    moved = omega arith;
    sized = refl;
    untouched = refl;
  }
  swallow (x ∷ xs) r w s room small miss =
      let (one, small', miss') =
        swallow_one r x (Prelude.length xs) w s (omega arith) small (omega arith) miss in
      let (r', w') = mbap_state_machine cb r x w in
      let rest = swallow xs r' w' one.in_data (omega (arith, one.moved)) small' miss' in
      record {
        in_data = rest.in_data;
        moved = omega (arith, rest.moved, one.moved);
        sized = rest.sized ∙ one.sized;
        untouched = rest.untouched ∙ one.untouched;
      }

  overflow :
      (r : MbapReader) (x : ℕ) (w : W)
      → r.state ≡ pdu
      → r.ndx ≡ tcp_pdu_size_max
      → mbap_state_machine cb r x w ≡ (fresh r.frame, w)
  unfolding mbap_state_machine
  overflow r x w s full = ground arith

  -- A header whose length field is 0, 1 or above 254, followed by any 254 bytes: the callback is
  -- never called, and the reader is then as after a reset, over memory of the same size.
  pub bad_length-resync :
      (frame : List ℕ) (h : Header) (xs : List ℕ) (x : ℕ) (w : W)
      → 260 ≤ Prelude.length frame
      → word16 h.length_hi h.length_lo < 2 ⊎ 254 < word16 h.length_hi h.length_lo
      → word16 h.length_hi h.length_lo < 2 ^ 16
      → Prelude.length xs ≡ 253
      → (frame' : List ℕ) × (mbap_reader_feed cb (fresh frame) (header_bytes h ++ (xs ++ x ∷ [])) w
          ≡ (fresh frame', w))
        × (Prelude.length frame' ≡ Prelude.length frame)
  bad_length-resync frame h xs x w room bad word size =
      let r = filled frame h [] (decrement (word16 h.length_hi h.length_lo)) in
      let s = swallow xs r w refl (omega arith) (omega arith) (omega arith) in
      let (r', w') = mbap_reader_feed cb r xs w in
      (
        r'.frame,
        feed_header cb frame h (xs ++ x ∷ []) w room
            ∙ feed-append cb xs (x ∷ []) r w
            ∙ feed_one r' x w'
            ∙ overflow r' x w' s.in_data (omega (arith, s.moved))
            ∙ ap (λ (v : W). (fresh r'.frame, v)) s.untouched,
        s.sized ∙ length-write_at (header_bytes h ++ []) frame 0,
      )
    where
      feed_one :
          (r : MbapReader) (x : ℕ) (w : W)
          → mbap_reader_feed cb r (x ∷ []) w ≡ mbap_state_machine cb r x w
      feed_one r x w = unfold mbap_reader_feed in refl
