-- ===== src/CliSerial/Typed.antt =====
-- What is typed on a serial line, and what is heard.
use kongjaexpress.Prelude.{
  ℕ, zero, ◌+◌, ◌≤◌, ◌≡◌, refl, sym, ap, ◌∙◌, arith, List, [], ◌∷◌, ◌++◌, true, Option, none, some,
  length, drop, append-nil, drop-length-append, write_at, length-write_at, take-write_at_zero,
}
use kongjaexpress.Prelude.Chains.{chain}
use kongjaexpress.Prelude.Bytes.{All}
use kongjaexpress.CircBuffer.{circ_buffer_is_empty, circ_buffer_init}
use kongjaexpress.Watcher.{EventLoop}
use kongjaexpress.Stream.{
  stream_start, stream_init_with_fd, ReadResult, got, closed, broken, stream_watcher_callback,
}
use kongjaexpress.Cli.{CliIntf, Command, cli_handle_rx}
use kongjaexpress.Cli.Edit.{IsBounded}
use kongjaexpress.Cli.Lines.{view, type_bytes, view-cli_handle_rx}
use kongjaexpress.Cli.Printed.{cli_handle_rx-Printed}
use kongjaexpress.CliTelnet.{Kernel}
use kongjaexpress.CliTelnet.Output.{Client, client, hear_all, hear_all-append, client-put_all}
use kongjaexpress.CliSerial.{
  cli_serial_initialize, CliSerialIf, write_out, serial_stream_event, serial_readable, serial_reads,
}

abbrev pub bytes_of_read : ReadResult → List ℕ
bytes_of_read (got bs) = bs
bytes_of_read closed = []
bytes_of_read broken = []

-- the bytes of all reads, none of an end or an error
abbrev pub all_bytes : List ReadResult → List ℕ
all_bytes [] = []
all_bytes (rd ∷ more) = bytes_of_read rd ++ all_bytes more

module _ (user : List Command) where
  cli_handle_rx-append :
      (xs ys : List ℕ) (intf : CliIntf)
      → cli_handle_rx user intf (xs ++ ys) ≡ cli_handle_rx user (cli_handle_rx user intf xs) ys
  unfolding cli_handle_rx
  cli_handle_rx-append [] ys intf = refl
  cli_handle_rx-append (x ∷ xs) ys intf = cli_handle_rx-append xs ys _

  module _ {Loop : Type 0} ⦃ev : EventLoop Loop⦄ (kernel : Kernel) (room : ℕ) where
    -- The line has what is heard of all that the interface printed.
    pub record IsHeard (intf : CliSerialIf Loop) : Type 0 where
      pub size : intf.stream.tx_buf.size ≡ room
      pub written : intf.writes ≡ length intf.cli_intf.tx
      pub heard :
          client (intf.stream, intf.sent) ≡ hear_all room kernel 0 intf.cli_intf.tx (true, [])

    -- the interface after a read of bytes, of which it is given `given`
    abbrev after_read : List ℕ → List ℕ → CliSerialIf Loop → CliSerialIf Loop
    after_read bs given intf = record intf {
      stream = record (intf.stream) {
        rx_buf = write_at intf.stream.rx_buf 0 bs;
        rx_data_len = length bs;
      };
      cli_intf = cli_handle_rx user intf.cli_intf given;
    }

    abbrev after : List ℕ → CliSerialIf Loop → CliSerialIf Loop
    after bs intf = write_out user kernel (after_read bs bs intf)

    readable-after :
        (bs : List ℕ) (intf : CliSerialIf Loop)
        → length bs ≤ length intf.stream.rx_buf
        → serial_readable user kernel (got bs) intf ≡ some (after bs intf)
    unfolding serial_readable serial_stream_event stream_watcher_callback
    readable-after bs intf fits =
        ap (λ (xs : List ℕ). some (write_out user kernel (after_read bs xs intf)))
          (take-write_at_zero bs intf.stream.rx_buf fits)

    after-IsHeard :
        (bs : List ℕ) (intf : CliSerialIf Loop)
        → IsHeard intf
        → IsHeard (after bs intf)
          × (length (after bs intf).stream.rx_buf ≡ length intf.stream.rx_buf)
    unfolding write_out
    after-IsHeard bs intf h =
        let base = intf.cli_intf.tx in
        let next = after_read bs bs intf in
        let (more, p) =
          cli_handle_rx-Printed user base bs intf.cli_intf ([], sym (append-nil base)) in
        let new = drop intf.writes next.cli_intf.tx in
        let upto : intf.writes ≡ 0 + length base = omega (arith, h.written) in
        let added : new ≡ more =
          ap (λ (n : ℕ). drop n next.cli_intf.tx) h.written
          ∙ ap (drop (length base)) p
          ∙ drop-length-append base more in
        let (same, rx, size) =
          client-put_all room kernel new intf.writes (next.stream, intf.sent) h.size in
        (
          record {
            size = size;
            written = refl;
            heard =
                same
                ∙ ap (hear_all room kernel intf.writes new) h.heard
                ∙ (λ i.
                    hear_all room kernel (upto i) (added i)
                      (hear_all room kernel 0 base (true, [])))
                ∙ sym (hear_all-append room kernel base more 0 (true, []))
                ∙ ap (λ (calls : List (List ℕ)). hear_all room kernel 0 calls (true, [])) (sym p);
          },
          ap length rx ∙ length-write_at bs intf.stream.rx_buf 0,
        )

    -- The end of a line and an error change nothing.
    at_end : (intf : CliSerialIf Loop) → serial_readable user kernel closed intf ≡ some intf
    unfolding serial_readable serial_stream_event stream_watcher_callback
    at_end intf = refl

    at_error : (intf : CliSerialIf Loop) → serial_readable user kernel broken intf ≡ some intf
    unfolding serial_readable serial_stream_event stream_watcher_callback
    at_error intf = refl

    serial_run :
        (n : ℕ) (reads : List ReadResult) (intf : CliSerialIf Loop)
        → length intf.stream.rx_buf ≡ n
        → All (λ rd. length (bytes_of_read rd) ≤ n) reads
        → IsHeard intf
        → (intf' : CliSerialIf Loop) × (serial_reads user kernel reads intf ≡ some intf')
          × (intf'.cli_intf ≡ cli_handle_rx user intf.cli_intf (all_bytes reads))
          × IsHeard intf'
    unfolding serial_reads cli_handle_rx write_out
    serial_run n [] intf size fits h = (intf, refl, refl, h)
    serial_run n (got bs ∷ reads) intf size fits h =
        let (heard, kept) = after-IsHeard bs intf h in
        let (intf', ran, given, h') =
          serial_run n reads (after bs intf) (kept ∙ size) fits.1 heard in
        (
          intf',
          chain (serial_readable user kernel (got bs) intf) (after bs intf)
                (serial_reads user kernel reads)
                (readable-after bs intf (omega (arith, fits.0, size)))
              ∙ ran,
          given ∙ sym (cli_handle_rx-append bs (all_bytes reads) intf.cli_intf),
          h',
        )
    serial_run n (closed ∷ reads) intf size fits h =
        let (intf', ran, given, h') = serial_run n reads intf size fits.1 h in
        (
          intf',
          chain (serial_readable user kernel closed intf) intf (serial_reads user kernel reads)
                (at_end intf)
              ∙ ran,
          given,
          h',
        )
    serial_run n (broken ∷ reads) intf size fits h =
        let (intf', ran, given, h') = serial_run n reads intf size fits.1 h in
        (
          intf',
          chain (serial_readable user kernel broken intf) intf (serial_reads user kernel reads)
                (at_error intf)
              ∙ ran,
          given,
          h',
        )

-- the room of the stream's queue, none where its `malloc` fails
abbrev pub serial_room : Option (List ℕ) → ℕ
serial_room none = zero
serial_room (some _) = 1024

module _ (user : List Command) {Loop : Type 0} ⦃ev : EventLoop Loop⦄ (kernel : Kernel) where
  initialize-IsHeard :
      (fd : ℕ) (l : Loop) (rx_buffer : List ℕ) (storage : Option (List ℕ))
      (memory : CliSerialIf Loop)
      → memory.cli_intf.tx ≡ []
      → memory.sent ≡ []
      → memory.writes ≡ 0
      → IsHeard user kernel
          (serial_room storage)
          (cli_serial_initialize (some fd) l rx_buffer storage memory)
  unfolding cli_serial_initialize stream_start stream_init_with_fd circ_buffer_init
      circ_buffer_is_empty hear_all
  initialize-IsHeard fd l rx_buffer none memory tx sent writes = record {
    size = refl;
    written = writes ∙ sym (ap length tx);
    heard = λ i. hear_all zero kernel 0 (sym tx i) (true, sent i);
  }
  initialize-IsHeard fd l rx_buffer (some _) memory tx sent writes = record {
    size = refl;
    written = writes ∙ sym (ap length tx);
    heard = λ i. hear_all 1024 kernel 0 (sym tx i) (true, sent i);
  }

  initialize-rx_buf :
      (fd : ℕ) (l : Loop) (rx_buffer : List ℕ) (storage : Option (List ℕ))
      (memory : CliSerialIf Loop)
      → (cli_serial_initialize (some fd) l rx_buffer storage memory).stream.rx_buf ≡ rx_buffer
  unfolding cli_serial_initialize stream_start stream_init_with_fd
  initialize-rx_buf fd l rx_buffer storage memory = refl

  initialize-cli_intf :
      (fd : ℕ) (l : Loop) (rx_buffer : List ℕ) (storage : Option (List ℕ))
      (memory : CliSerialIf Loop)
      → (cli_serial_initialize (some fd) l rx_buffer storage memory).cli_intf ≡ memory.cli_intf
  unfolding cli_serial_initialize
  initialize-cli_intf fd l rx_buffer storage memory = refl

  -- The line was opened, its interface has printed nothing and has a line of at most 252 bytes, and
  -- there are 128 bytes to read to. The line is read from, at most 128 bytes at a time, and may end
  -- or fail in between. The interface executes what an editor executes that is given the bytes of
  -- all reads; once its line has 252 bytes, the editor ignores every byte, a backspace too, up to the
  -- end of the line. What the interface prints goes out call by call, up to the first call of which
  -- bytes are left that fit in the queue of 1024 bytes, and without the bytes left that do not fit
  -- and the calls that fail.
  pub initialize-type_bytes :
      (fd : ℕ) (l : Loop) (rx_buffer : List ℕ) (storage : Option (List ℕ))
      (memory : CliSerialIf Loop) (reads : List ReadResult)
      → IsBounded memory.cli_intf
      → memory.cli_intf.tx ≡ []
      → memory.sent ≡ []
      → memory.writes ≡ 0
      → length rx_buffer ≡ 128
      → All (λ rd. length (bytes_of_read rd) ≤ 128) reads
      → let intf = cli_serial_initialize (some fd) l rx_buffer storage memory in
        (intf' : CliSerialIf Loop) × (serial_reads user kernel reads intf ≡ some intf')
        × (view intf'.cli_intf ≡ type_bytes user (view memory.cli_intf) (all_bytes reads))
        × (intf'.sent ≡ (hear_all (serial_room storage) kernel 0 intf'.cli_intf.tx (true, [])).1)
  initialize-type_bytes fd l rx_buffer storage memory reads bounded tx sent writes size fits =
      let intf = cli_serial_initialize (some fd) l rx_buffer storage memory in
      let long = ap length (initialize-rx_buf fd l rx_buffer storage memory) ∙ size in
      let begun = initialize-IsHeard fd l rx_buffer storage memory tx sent writes in
      let (intf', ran, given, h) =
        serial_run user kernel (serial_room storage) 128 reads intf long fits begun in
      (
        intf',
        ran,
        ap view given
            ∙ ap (λ (x : CliIntf). view (cli_handle_rx user x (all_bytes reads)))
                (initialize-cli_intf fd l rx_buffer storage memory)
            ∙ (view-cli_handle_rx user (all_bytes reads) memory.cli_intf bounded).0,
        ap (λ (x : Client). x.1) h.heard,
      )
