-- ===== src/Modbus/Mbap/Examples.antt =====
-- The reader on short streams; the world is the list of the frames delivered so far.
use kongjaexpress.Prelude.{ℕ, ◌+◌, ◌≡◌, refl, List, [], ◌∷◌, ◌++◌, arith, read_at, replicate, inl}
use kongjaexpress.Prelude
use kongjaexpress.Prelude.Bytes.{word16}
use kongjaexpress.Modbus.Mbap.{MbapReader, fresh, mbap_reader_feed, mbap_state_machine}
use kongjaexpress.Modbus.Mbap.Framing.{Header, header_bytes}
use kongjaexpress.Modbus.Mbap.Stream.{Frame, deliver_all, feed_reads, feed_reads-deliver_all}
use kongjaexpress.Modbus.Mbap.Resync.{bad_length-resync}

abbrev Log : Type 0
Log = List (List ℕ)

abbrev record_frame : MbapReader → Log → MbapReader × Log
record_frame r log = (r, read_at r.frame 0 r.ndx ∷ log)

abbrev memory : List ℕ
memory = replicate 260 0

-- transaction `t`, unit 2, `n` bytes of data
abbrev head : ℕ → ℕ → Header
head t n = record {
  tid_hi = 0;
  tid_lo = t;
  pid_hi = 0;
  pid_lo = 0;
  length_hi = 0;
  length_lo = n + 1;
  uid = 2;
}

abbrev request : List ℕ
request = 1 ∷ 0 ∷ 0 ∷ 0 ∷ 8 ∷ []

abbrev frames : List Frame
frames = (head 1 5, request) ∷ (head 2 1, 7 ∷ []) ∷ []

-- the two frames in three reads
abbrev reads : List (List ℕ)
reads =
    (0 ∷ 1 ∷ 0 ∷ 0 ∷ 0 ∷ [])
    ∷ (6 ∷ 2 ∷ 1 ∷ 0 ∷ 0 ∷ 0 ∷ 8 ∷ 0 ∷ 2 ∷ [])
    ∷ (0 ∷ 0 ∷ 0 ∷ 2 ∷ 2 ∷ 7 ∷ [])
    ∷ []

reads_logged :
    (feed_reads record_frame (fresh memory) reads []).1
    ≡ (0 ∷ 2 ∷ 0 ∷ 0 ∷ 0 ∷ 2 ∷ 2 ∷ 7 ∷ [])
      ∷ (0 ∷ 1 ∷ 0 ∷ 0 ∷ 0 ∷ 6 ∷ 2 ∷ 1 ∷ 0 ∷ 0 ∷ 0 ∷ 8 ∷ [])
      ∷ []
unfolding feed_reads mbap_reader_feed mbap_state_machine word16
reads_logged = refl

feed_reads-deliver_all_example :
    feed_reads record_frame (fresh memory) reads [] ≡ deliver_all record_frame memory frames []
unfolding word16
feed_reads-deliver_all_example =
    feed_reads-deliver_all record_frame reads frames memory [] (λ r w h. h) (omega arith)
      ((refl, omega arith, omega arith), ((refl, omega arith, omega arith), tt)) refl

bad_length-resync_example :
    (frame' : List ℕ) × (mbap_reader_feed record_frame
        (fresh memory)
        (header_bytes (head 1 0) ++ (replicate 253 9 ++ 9 ∷ []))
        []
      ≡ (fresh frame', []))
    × (Prelude.length frame' ≡ Prelude.length memory)
unfolding word16
bad_length-resync_example =
    bad_length-resync record_frame memory (head 1 0) (replicate 253 9) 9 [] (omega arith)
      (inl (omega arith)) (omega arith) refl
