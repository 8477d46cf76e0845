-- ===== src/Modbus/Mbap.antt =====
-- src/protocols/modbus/mbap_reader.c and inc/modbus/mbap_reader.h: the reader that cuts a TCP byte
-- stream into Modbus frames. The callback `cb` may change the reader's frame and the world `W`.
pub mod Framing
pub mod Stream
pub mod Resync
pub mod World
mod Examples
use kongjaexpress.Prelude.{
  ℕ, ◌+◌, ◌-◌, ◌%◌, ◌^◌, List, [], ◌∷◌, leb, ◌==◌, if◌then◌else◌, get_or, set,
}
use kongjaexpress.Prelude.Bytes.{word16}

-- MB_TCP_PDU_SIZE_MAX
abbrev pub tcp_pdu_size_max : ℕ
tcp_pdu_size_max = 260

-- `mbap_reader_state_t`
pub data State : Type 0 where
  header pdu : State

-- `data_remaining` is an `int` that goes below 0: it is held as its 32 bits.
pub record MbapReader : Type 0 where
  pub frame : List ℕ
  pub state : State
  pub tid : ℕ
  pub pid : ℕ
  pub length : ℕ
  pub uid : ℕ
  pub header_remaining : ℕ
  pub data_remaining : ℕ
  pub ndx : ℕ

-- `x - 1` for an `int`
abbrev pub decrement : ℕ → ℕ
decrement x = (x + 2 ^ 32 - 1) % 2 ^ 32

-- a reader that waits for a header, over the memory that its frame occupies
abbrev pub fresh : List ℕ → MbapReader
fresh frame = record {
  frame = frame;
  state = header;
  tid = 0;
  pid = 0;
  length = 0;
  uid = 0;
  header_remaining = 7;
  data_remaining = 0;
  ndx = 0;
}

unfoldable pub mbap_reader_reset : MbapReader → MbapReader
mbap_reader_reset r = fresh r.frame

unfoldable pub mbap_reader_init : MbapReader → MbapReader
unfolding mbap_reader_reset
mbap_reader_init r = mbap_reader_reset r

-- the header is complete
abbrev pub decode_header : MbapReader → MbapReader
decode_header r =
    let frame = r.frame in
    let len = word16 (get_or frame 4 0) (get_or frame 5 0) in
    record r {
      tid = word16 (get_or frame 0 0) (get_or frame 1 0);
      pid = word16 (get_or frame 2 0) (get_or frame 3 0);
      length = len;
      uid = get_or frame 6 0;
      data_remaining = decrement len;
      state = pdu;
    }

module _ {W : Type 0} (cb : MbapReader → W → MbapReader × W) where
  header_byte : MbapReader → ℕ → W → MbapReader × W
  header_byte r byte w =
      let r₁ = record r {
        frame = set r.frame r.ndx byte;
        ndx = r.ndx + 1;
        header_remaining = r.header_remaining - 1;
      } in
      if r₁.header_remaining == 0 then (decode_header r₁, w) else (r₁, w)

  pdu_byte : MbapReader → ℕ → W → MbapReader × W
  pdu_byte r byte w =
      let r₁ = record r {
        frame = set r.frame r.ndx byte;
        ndx = r.ndx + 1;
        data_remaining = decrement r.data_remaining;
      } in
      let delivered = cb r₁ w in
      if leb tcp_pdu_size_max r.ndx
      then (mbap_reader_reset r, w)
      else if r₁.data_remaining == 0
      then (mbap_reader_reset delivered.0, delivered.1)
      else (r₁, w)

  in_state : State → MbapReader → ℕ → W → MbapReader × W
  in_state header = header_byte
  in_state pdu = pdu_byte

  unfoldable pub mbap_state_machine : MbapReader → ℕ → W → MbapReader × W
  unfolding in_state header_byte pdu_byte mbap_reader_reset
  mbap_state_machine r byte w = in_state r.state r byte w

  unfoldable pub mbap_reader_feed : MbapReader → List ℕ → W → MbapReader × W
  mbap_reader_feed r [] w = (r, w)
  mbap_reader_feed r (byte ∷ bytes) w =
      let (r', w') = mbap_state_machine r byte w in mbap_reader_feed r' bytes w'
