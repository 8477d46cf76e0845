-- ===== src/Modbus/Mbap/World.antt =====
-- What the reader does to the world of its callback: what the callback keeps, the reader keeps, and
-- a part of the world that the callback works on alone is all that counts for that part.
use kongjaexpress.Prelude.{
  ℕ, ◌+◌, ◌-◌, set, true, false, ◌≡◌, refl, ap, ◌∙◌, arith, List, [], ◌∷◌, leb, ◌==◌, if◌then◌else◌,
}
use kongjaexpress.Modbus.Mbap.{
  MbapReader, State, decrement, decode_header, tcp_pdu_size_max, header, pdu, header_byte, pdu_byte,
  in_state, mbap_state_machine, mbap_reader_reset, mbap_reader_feed,
}
use kongjaexpress.Modbus.Mbap.Stream.{feed_reads}

-- the reader with one more byte
abbrev taken_in_header : MbapReader → ℕ → MbapReader
taken_in_header r b = record r {
  frame = set r.frame r.ndx b;
  ndx = r.ndx + 1;
  header_remaining = r.header_remaining - 1;
}

abbrev taken_in_pdu : MbapReader → ℕ → MbapReader
taken_in_pdu r b = record r {
  frame = set r.frame r.ndx b;
  ndx = r.ndx + 1;
  data_remaining = decrement r.data_remaining;
}

module _ {W : Type 0} (cb : MbapReader → W → MbapReader × W) (Q : W → Type 0)
    (keeps : (r : MbapReader) (w : W) → Q w → Q (cb r w).1) where
  byte-keeps : (st : State) (r : MbapReader) (b : ℕ) (w : W) → Q w → Q (in_state cb st r b w).1
  unfolding in_state header_byte pdu_byte
  byte-keeps header r b w q =
      let r₁ = taken_in_header r b in
      elim (r₁.header_remaining == 0)
        as (λ t. Q (if◌then◌else◌ {A = MbapReader × W} t (decode_header r₁, w) (r₁, w)).1) [
          | true ↦ q
          | false ↦ q
        ]
  byte-keeps pdu r b w q =
      let r₁ = taken_in_pdu r b in
      let done : MbapReader × W =
        (if r₁.data_remaining == 0
          then (mbap_reader_reset (cb r₁ w).0, (cb r₁ w).1)
          else (r₁, w)) in
      let rest : Q done.1 =
        elim (r₁.data_remaining == 0)
          as (λ t.
            Q
              (if◌then◌else◌ {A = MbapReader × W} t (mbap_reader_reset (cb r₁ w).0, (cb r₁ w).1)
                (r₁, w)).1) [ true ↦ keeps r₁ w q | false ↦ q ] in
      elim (leb tcp_pdu_size_max r.ndx)
        as (λ t. Q (if◌then◌else◌ {A = MbapReader × W} t (mbap_reader_reset r, w) done).1) [
          | true ↦ q
          | false ↦ rest
        ]

  pub feed-keeps : (bs : List ℕ) (r : MbapReader) (w : W) → Q w → Q (mbap_reader_feed cb r bs w).1
  unfolding mbap_reader_feed mbap_state_machine
  feed-keeps [] r w q = q
  feed-keeps (b ∷ bs) r w q =
      let (r', w') = in_state cb r.state r b w in feed-keeps bs r' w' (byte-keeps r.state r b w q)

module _ {W V : Type 0} (cb : MbapReader → W → MbapReader × W)
    (part : MbapReader → V → MbapReader × V) (p : W → V)
    (alone : (r : MbapReader) (w : W) → part r (p w) ≡ ((cb r w).0, p (cb r w).1)) where
  byte-part :
      (st : State) (r : MbapReader) (b : ℕ) (w : W)
      → in_state part st r b (p w) ≡ ((in_state cb st r b w).0, p (in_state cb st r b w).1)
  unfolding in_state header_byte pdu_byte
  byte-part header r b w = ground arith
  byte-part pdu r b w = ground (arith, alone (taken_in_pdu r b) w)

  pub feed-part :
      (bs : List ℕ) (r : MbapReader) (w : W)
      → mbap_reader_feed part r bs (p w)
        ≡ ((mbap_reader_feed cb r bs w).0, p (mbap_reader_feed cb r bs w).1)
  unfolding mbap_reader_feed mbap_state_machine
  feed-part [] r w = refl
  feed-part (b ∷ bs) r w =
      let (r', w') = in_state cb r.state r b w in
      ap (λ (x : MbapReader × V). mbap_reader_feed part x.0 bs x.1) (byte-part r.state r b w)
      ∙ feed-part bs r' w'

  pub feed_reads-part :
      (reads : List (List ℕ)) (r : MbapReader) (w : W)
      → feed_reads part r reads (p w) ≡ ((feed_reads cb r reads w).0, p (feed_reads cb r reads w).1)
  unfolding feed_reads
  feed_reads-part [] r w = refl
  feed_reads-part (bs ∷ reads) r w =
      let (r', w') = mbap_reader_feed cb r bs w in
      ap (λ (x : MbapReader × V). feed_reads part x.0 reads x.1) (feed-part bs r w)
      ∙ feed_reads-part reads r' w'
