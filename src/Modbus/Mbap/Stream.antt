-- ===== src/Modbus/Mbap/Stream.antt =====
-- Several frames, in reads of any size.
use kongjaexpress.Prelude.{
  ℕ, ◌+◌, ◌≤◌, ◌≡◌, refl, ap, ◌∙◌, sym, arith, List, [], ◌∷◌, ◌++◌, length-write_at, append_assoc,
}
use kongjaexpress.Prelude
use kongjaexpress.Prelude.Bytes.{word16, All}
use kongjaexpress.Modbus.Mbap.{MbapReader, fresh, mbap_reader_feed}
use kongjaexpress.Modbus.Mbap.Framing.{
  Header, header_bytes, filled, deliver, feed-append, feed_frame,
}

abbrev pub Frame : Type 0
Frame = Header × List ℕ

-- The length field counts the unit id and the data: 1 to 253 bytes, the sizes of a Modbus PDU.
abbrev pub IsFrame : Frame → Type 0
IsFrame (h, bytes) =
    (word16 h.length_hi h.length_lo ≡ Prelude.length bytes + 1)
    × (1 ≤ Prelude.length bytes)
    × (Prelude.length bytes ≤ 253)

abbrev pub encode_all : List Frame → List ℕ
encode_all [] = []
encode_all ((h, bytes) ∷ fs) = (header_bytes h ++ bytes) ++ encode_all fs

abbrev pub joined : List (List ℕ) → List ℕ
joined [] = []
joined (c ∷ cs) = c ++ joined cs

module _ {W : Type 0} (cb : MbapReader → W → MbapReader × W) where
  -- the callbacks for the frames in order
  pub deliver_all : List ℕ → List Frame → W → MbapReader × W
  deliver_all frame [] w = (fresh frame, w)
  deliver_all frame ((h, bytes) ∷ fs) w =
      let (r, w') = deliver cb frame h bytes w in deliver_all r.frame fs w'

  -- one call of `mbap_reader_feed` for each read
  unfoldable pub feed_reads : MbapReader → List (List ℕ) → W → MbapReader × W
  feed_reads r [] w = (r, w)
  feed_reads r (c ∷ cs) w = let (r', w') = mbap_reader_feed cb r c w in feed_reads r' cs w'

  feed_reads-joined :
      (cs : List (List ℕ)) (r : MbapReader) (w : W)
      → feed_reads r cs w ≡ mbap_reader_feed cb r (joined cs) w
  unfolding feed_reads mbap_reader_feed
  feed_reads-joined [] r w = refl
  feed_reads-joined (c ∷ cs) r w =
      let (r', w') = mbap_reader_feed cb r c w in
      feed_reads-joined cs r' w' ∙ sym (feed-append cb c (joined cs) r w)

  -- The callback does not shorten the memory of the frame.
  abbrev pub KeepsRoom : Type 0
  KeepsRoom =
      (r : MbapReader) (w : W)
      → 260 ≤ Prelude.length r.frame
      → 260 ≤ Prelude.length (cb r w).0.frame

  feed_nil : (r : MbapReader) (w : W) → mbap_reader_feed cb r [] w ≡ (r, w)
  unfolding mbap_reader_feed
  feed_nil r w = refl

  feed-All :
      (fs : List Frame) (frame : List ℕ) (w : W)
      → KeepsRoom
      → 260 ≤ Prelude.length frame
      → All IsFrame fs
      → mbap_reader_feed cb (fresh frame) (encode_all fs) w ≡ deliver_all frame fs w
  unfolding deliver_all
  feed-All [] frame w keeps room good = feed_nil (fresh frame) w
  feed-All ((h, bytes) ∷ fs) frame w keeps room good =
      let (r, w') = deliver cb frame h bytes w in
      feed-append cb (header_bytes h ++ bytes) (encode_all fs) (fresh frame) w
      ∙ ap (λ (s : MbapReader × W). mbap_reader_feed cb s.0 (encode_all fs) s.1)
          (feed_frame cb frame h bytes w room good.0.0 good.0.1 good.0.2)
      ∙ feed-All fs r.frame w' keeps
          (keeps (filled frame h bytes 0) w
            (omega (arith, length-write_at (header_bytes h ++ bytes) frame 0)))
          good.1

  -- Reads that together hold a sequence of frames of 1 to 253 data bytes, cut at any places: the
  -- callback is called once for each frame, in order, and the reader ends ready for a header.
  pub feed_reads-deliver_all :
      (reads : List (List ℕ)) (fs : List Frame) (frame : List ℕ) (w : W)
      → KeepsRoom
      → 260 ≤ Prelude.length frame
      → All IsFrame fs
      → joined reads ≡ encode_all fs
      → feed_reads (fresh frame) reads w ≡ deliver_all frame fs w
  feed_reads-deliver_all reads fs frame w keeps room good e =
      feed_reads-joined reads (fresh frame) w
      ∙ ap (λ bs. mbap_reader_feed cb (fresh frame) bs w) e
      ∙ feed-All fs frame w keeps room good
