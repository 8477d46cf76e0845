-- ===== src/Modbus/RtuSlave/Gather.antt =====
-- The RTU slave over reads and silences of its line.
use kongjaexpress.Prelude.{
  ℕ, ◌+◌, ◌≤◌, ◌≡◌, refl, ap, sym, ◌∙◌, List, [], ◌∷◌, ◌++◌, Option, true, false, arith, length,
  length-write_at, take-write_at, take, write_at, leb, if◌then◌else◌,
}
use mathlib.Core.Path.{subst}
use kongjaexpress.Prelude.Bytes.{All, Bytes}
use kongjaexpress.Watcher.{EventLoop}
use kongjaexpress.Stream.{Stream, StreamEvent, WriteResult, stream_write, stream_init_with_fd}
use kongjaexpress.Modbus.Common.{SlaveCallbacks}
use kongjaexpress.Modbus.RtuSlave.{
  RtuSlave, modbus_rtu_rx, modbus_rtu_stream_callback, answer, mb_rtu_handle_rx_frame,
  mb_rtu_start_handling_rx_frame, t35_timeout_handler, modbus_rtu_slave_init,
}
use kongjaexpress.Modbus.RtuSlave.Bounds.{IsBounded, All-write_at, rx-IsBounded, timeout-IsBounded}

-- what happens on the line: a read of some bytes, or a silence that ends the timer if it runs
pub data LineEvent : Type 0 where
  read : List ℕ → LineEvent
  silence : WriteResult → LineEvent

-- a read of 1 to 128 bytes
abbrev pub IsRead : LineEvent → Type 0
IsRead (read bs) = (1 ≤ length bs) × (length bs ≤ 128) × Bytes bs
IsRead (silence _) = Unit

module _ {Loop : Type 0} ⦃ev : EventLoop Loop⦄ where
  write-rx_buf :
      (s : Stream Loop) (bytes : List ℕ) (ret : WriteResult)
      → (stream_write s bytes ret).stream.rx_buf ≡ s.rx_buf
  unfolding stream_write
  write-rx_buf s bytes ret = ground arith

module _ {Loop D : Type 0} where
  -- the slave when `stream_watcher_callback` has read the bytes into `rx_buf`
  abbrev pub bytes_read : RtuSlave Loop D → List ℕ → RtuSlave Loop D
  bytes_read s bs = record s {
    stream = record (s.stream) { rx_buf = write_at s.stream.rx_buf 0 bs; rx_data_len = length bs };
  }

  abbrev pub receive : RtuSlave Loop D → List ℕ → RtuSlave Loop D
  receive s bs = modbus_rtu_stream_callback (bytes_read s bs) StreamEvent.rx

  -- the bytes gathered since the last silence
  abbrev pub gathered : RtuSlave Loop D → List ℕ
  gathered s = take s.data_ndx s.data_buffer

  pub record IsReady (s : RtuSlave Loop D) : Type 0 where
    pub bounded : IsBounded s
    pub room : length s.stream.rx_buf ≡ 128
    pub bytes : Bytes s.stream.rx_buf

  rx-rx_buf : (s : RtuSlave Loop D) → (modbus_rtu_rx s).stream.rx_buf ≡ s.stream.rx_buf
  unfolding modbus_rtu_rx
  rx-rx_buf s = ground arith

  pub receive-IsReady :
      (s : RtuSlave Loop D) (bs : List ℕ)
      → IsReady s
      → length bs ≤ 128
      → Bytes bs
      → IsReady (receive s bs)
  unfolding modbus_rtu_stream_callback
  receive-IsReady s bs v few b =
      let good = All-write_at bs s.stream.rx_buf 0 b v.bytes in
      let whole = length-write_at bs s.stream.rx_buf 0 ∙ v.room in
      record {
        bounded =
            rx-IsBounded (bytes_read s bs)
              (record { size = v.bounded.size; bytes = v.bounded.bytes; short = v.bounded.short })
              few good;
        room = ap (λ (t : List ℕ). length t) (rx-rx_buf (bytes_read s bs)) ∙ whole;
        bytes = subst Bytes (sym (rx-rx_buf (bytes_read s bs))) good;
      }

  module _ ⦃ev : EventLoop Loop⦄ where
    module _ (cb : SlaveCallbacks D) where
      timeout-rx_buf :
          (s : RtuSlave Loop D) (ret : WriteResult)
          → (t35_timeout_handler cb s ret).slave.stream.rx_buf ≡ s.stream.rx_buf
      unfolding t35_timeout_handler mb_rtu_start_handling_rx_frame mb_rtu_handle_rx_frame answer
      timeout-rx_buf s ret = grind (arith, write-rx_buf)

      pub line_event : LineEvent → RtuSlave Loop D → RtuSlave Loop D
      line_event (read bs) s = receive s bs
      line_event (silence ret) s = if s.t35 then (t35_timeout_handler cb s ret).slave else s

      pub line_events : List LineEvent → RtuSlave Loop D → RtuSlave Loop D
      line_events [] s = s
      line_events (e ∷ es) s = line_events es (line_event e s)

      line_event-IsReady :
          (e : LineEvent) (s : RtuSlave Loop D) → IsRead e → IsReady s → IsReady (line_event e s)
      unfolding line_event
      line_event-IsReady (read bs) s h v = receive-IsReady s bs v h.1 h.2
      line_event-IsReady (silence ret) s h v =
          let after : IsReady (t35_timeout_handler cb s ret).slave = record {
            bounded = timeout-IsBounded cb s ret v.bounded;
            room = ap (λ (t : List ℕ). length t) (timeout-rx_buf s ret) ∙ v.room;
            bytes = subst Bytes (sym (timeout-rx_buf s ret)) v.bytes;
          } in
          elim s.t35 as (λ b. IsReady (if b then (t35_timeout_handler cb s ret).slave else s)) [
            | true ↦ after
            | false ↦ v
          ]

  -- A read of at most 128 bytes joins the bytes gathered; where the sum reaches 256, the bytes
  -- gathered before are dropped and the read ones kept.
  pub gathered-receive :
      (s : RtuSlave Loop D) (bs : List ℕ)
      → IsReady s
      → length bs ≤ 128
      → gathered (receive s bs)
        ≡ (if leb 256 (s.data_ndx + length bs) then bs else gathered s ++ bs)
  unfolding modbus_rtu_stream_callback modbus_rtu_rx
  gathered-receive s bs v few =
      let read = take (length bs) (write_at s.stream.rx_buf 0 bs) in
      let same : read ≡ bs =
        ap (λ (n : ℕ). take n (write_at s.stream.rx_buf 0 bs)) (omega arith)
        ∙ take-write_at bs s.stream.rx_buf 0 (omega (arith, v.room)) in
      rw same (
        ground (
          arith,
          v.bounded.size,
          take-write_at bs s.data_buffer s.data_ndx,
          take-write_at bs s.data_buffer 0,
        ))

module _ {Loop D : Type 0} ⦃ev : EventLoop Loop⦄ (cb : SlaveCallbacks D) where
  events_from :
      (es : List LineEvent) (s : RtuSlave Loop D)
      → All IsRead es
      → IsReady s
      → IsReady (line_events cb es s)
  unfolding line_events
  events_from [] s h v = v
  events_from (e ∷ es) s h v =
      events_from es (line_event cb e s) h.1 (line_event-IsReady cb e s h.0 v)

  init-IsReady :
      (l : Loop) (addr : ℕ) (storage : Option (List ℕ)) (dev : D)
      → IsReady (modbus_rtu_slave_init l addr storage dev)
  unfolding modbus_rtu_slave_init stream_init_with_fd
  init-IsReady l addr storage dev = record {
    bounded = record { size = refl; bytes = ground arith; short = omega arith };
    room = refl;
    bytes = ground arith;
  }

  -- From the initial state, after any sequence of reads of 1 to 128 bytes and of silences: the data
  -- buffer of the slave has its 256 bytes, each below 256, and the index of the next byte is below
  -- 256.
  pub line_events-IsBounded :
      (es : List LineEvent) (l : Loop) (addr : ℕ) (storage : Option (List ℕ)) (dev : D)
      → All IsRead es
      → IsBounded (line_events cb es (modbus_rtu_slave_init l addr storage dev))
  line_events-IsBounded es l addr storage dev h =
      (events_from es _ h (init-IsReady l addr storage dev)).bounded
