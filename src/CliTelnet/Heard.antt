-- ===== src/CliTelnet/Heard.antt =====
-- A session against what its client hears.
use kongjaexpress.Prelude.{
  ℕ, zero, ◌+◌, ◌≤◌, ◌≡◌, refl, sym, ap, ◌∙◌, arith, List, [], ◌∷◌, true, false, Option, none, some,
  ◌==◌, if◌then◌else◌, length, drop, drop-length-append, append-nil,
}
use mathlib.Core.Path.{subst}
use mathlib.Core.Option.{some-injective}
use kongjaexpress.Prelude.Bytes.{All}
use kongjaexpress.CircBuffer.{circ_buffer_is_empty, circ_buffer_init}
use kongjaexpress.Watcher.{EventLoop}
use kongjaexpress.Stream.{Stream, stream_init_with_fd, stream_start}
use kongjaexpress.Cli.{CliIntf, Command, cli_handle_rx}
use kongjaexpress.Cli.Printed.{Printed, cli_handle_rx-Printed}
use kongjaexpress.Telnet.{Codes, TelnetReader, telnet_reader_feed}
use kongjaexpress.Telnet.World.{feed-keeps}
use kongjaexpress.Modbus.Mbap.Stream.{joined}
use kongjaexpress.CliTelnet.{
  Kernel, Options, CliConnection, iacs_to_send, telnet_rx_databack, telnet_rx_cmdback, flush,
  alloc_cli_connection,
}
use kongjaexpress.CliTelnet.Output.{
  Client, client, hear, hear_all, hear_all-append, client-put, client-put_all,
}
use kongjaexpress.CliTelnet.Session.{
  session, after, session_read, session-joined, length-after, length-alloc,
}

-- the room of the stream's queue, none where its `malloc` fails
abbrev pub room_of : Option (List ℕ) → ℕ
room_of none = zero
room_of (some _) = 128

module _ (user : List Command) where
  databack-Printed :
      (base : List (List ℕ)) (tr : TelnetReader) (d : ℕ) (intf : CliIntf)
      → Printed base intf
      → Printed base (telnet_rx_databack user tr d intf)
  unfolding telnet_rx_databack
  databack-Printed base tr d intf p =
      elim (d == 0) as (λ b. Printed base (if b then intf else cli_handle_rx user intf (d ∷ []))) [
        | true ↦ p
        | false ↦ cli_handle_rx-Printed user base (d ∷ []) intf p
      ]

  module _ {Loop : Type 0} ⦃ev : EventLoop Loop⦄ (k : Codes) (kernel : Kernel) (room : ℕ)
      (first : List ℕ) where
    -- The client has what it hears of `first` and of all that the interface printed.
    record IsHeard (conn : CliConnection Loop) : Type 0 where
      size : conn.stream.tx_buf.size ≡ room
      written : conn.writes ≡ length conn.cli_intf.tx
      heard :
          client (conn.stream, conn.sent)
          ≡ hear_all room kernel 0 (first ∷ conn.cli_intf.tx) (true, [])

    flush-IsHeard :
        (base : List (List ℕ)) (conn : CliConnection Loop)
        → conn.stream.tx_buf.size ≡ room
        → conn.writes ≡ length base
        → client (conn.stream, conn.sent) ≡ hear_all room kernel 0 (first ∷ base) (true, [])
        → Printed base conn.cli_intf
        → IsHeard (flush user k kernel conn)
    unfolding flush
    flush-IsHeard base conn size upto heard (more, p) =
        let new = drop conn.writes conn.cli_intf.tx in
        let added : new ≡ more =
          ap (λ (n : ℕ). drop n conn.cli_intf.tx) upto
          ∙ ap (drop (length base)) p
          ∙ drop-length-append base more in
        let count : 1 + conn.writes ≡ 0 + length (first ∷ base) = omega (arith, upto) in
        let (same, rx, room') =
          client-put_all room kernel new (1 + conn.writes) (conn.stream, conn.sent) size in
        record {
          size = room';
          written = refl;
          heard =
              same
              ∙ ap (hear_all room kernel (1 + conn.writes) new) heard
              ∙ ap
                  (λ (n : ℕ).
                    hear_all room kernel n new (hear_all room kernel 0 (first ∷ base) (true, [])))
                  count
              ∙ ap
                  (λ (calls : List (List ℕ)).
                    hear_all room kernel (0 + length (first ∷ base)) calls
                      (hear_all room kernel 0 (first ∷ base) (true, [])))
                  added
              ∙ sym (hear_all-append room kernel (first ∷ base) more 0 (true, []))
              ∙ ap (λ (calls : List (List ℕ)). hear_all room kernel 0 (first ∷ calls) (true, []))
                  (sym p);
        }

    after-IsHeard :
        (bs : List ℕ) (conn : CliConnection Loop)
        → IsHeard conn
        → IsHeard (after user k kernel bs conn)
    after-IsHeard bs conn h = flush-IsHeard conn.cli_intf.tx _ h.size h.written h.heard (
        feed-keeps k (telnet_rx_databack user) (telnet_rx_cmdback user) (Printed conn.cli_intf.tx)
          (databack-Printed conn.cli_intf.tx) (λ tr w q. q) bs conn.telnet conn.cli_intf
          ([], sym (append-nil conn.cli_intf.tx)))

    session-IsHeard :
        (n : ℕ) (reads : List (List ℕ)) (conn conn' : CliConnection Loop)
        → length conn.stream.rx_buf ≡ n
        → All (λ bs. length bs ≤ n) reads
        → IsHeard conn
        → session user k kernel reads conn ≡ some conn'
        → IsHeard conn'
    unfolding session
    session-IsHeard n [] conn conn' size fits h ran =
        subst IsHeard (some-injective conn conn' ran) h
    session-IsHeard n (bs ∷ reads) conn conn' size fits h ran =
        session-IsHeard n reads (after user k kernel bs conn) conn'
          (length-after user k kernel bs conn ∙ size) fits.1 (after-IsHeard bs conn h)
          (sym (session_read user k kernel bs reads conn (omega (arith, fits.0, size))) ∙ ran)

  module _ {Loop : Type 0} ⦃ev : EventLoop Loop⦄ (k : Codes) (kernel : Kernel) (o : Options) where
    set_up : (l : Loop) (rx_buf : List ℕ) (storage : Option (List ℕ)) → Stream Loop
    set_up l rx_buf storage = stream_start (stream_init_with_fd l rx_buf 128 storage 128)

    set_up-queue :
        (l : Loop) (rx_buf : List ℕ) (storage : Option (List ℕ))
        → ((set_up l rx_buf storage).tx_buf.size ≡ room_of storage)
          × (circ_buffer_is_empty (set_up l rx_buf storage).tx_buf ≡ true)
    unfolding set_up stream_start stream_init_with_fd circ_buffer_init circ_buffer_is_empty
    set_up-queue l rx_buf none = (refl, refl)
    set_up-queue l rx_buf (some _) = (refl, refl)

    alloc-IsHeard :
        (l : Loop) (rx_buf : List ℕ) (storage : Option (List ℕ)) (conn : CliConnection Loop)
        → IsHeard k kernel
            (room_of storage)
            (iacs_to_send k o)
            (alloc_cli_connection user k kernel o l rx_buf storage conn)
    unfolding alloc_cli_connection set_up hear_all
    alloc-IsHeard l rx_buf storage conn =
        let (room, empty) = set_up-queue l rx_buf storage in
        let (heard, rx, size) =
          client-put kernel 0 (iacs_to_send k o) (set_up l rx_buf storage, []) in
        flush-IsHeard k kernel (room_of storage) (iacs_to_send k o) [] _ (size ∙ room) refl
          (heard ∙ (λ i. hear (room i) (kernel 0 6) (iacs_to_send k o) (empty i, [])))
          (cli_handle_rx-Printed user [] (13 ∷ []) (record (conn.cli_intf) { tx = [] }) ([], refl))

    -- A connection is set up over 128 bytes to read to, its client sends any bytes, which are read at
    -- most 128 at a time, and the kernel takes what it likes of each write. The connection stays
    -- open, its interface is given the bytes that one feed of the reader with all of them gives it,
    -- and the client gets the options of the session and then what the interface prints, call by
    -- call. This ends with the first call of which bytes are left that fit in the queue: no read
    -- sends these, or anything that is printed after them. Bytes left that do not fit, and the calls
    -- that fail, are missing from the middle.
    pub session-heard :
        (l : Loop) (rx_buf : List ℕ) (storage : Option (List ℕ)) (conn : CliConnection Loop)
        (reads : List (List ℕ))
        → length rx_buf ≡ 128
        → All (λ bs. length bs ≤ 128) reads
        → let c = alloc_cli_connection user k kernel o l rx_buf storage conn in
          (conn' : CliConnection Loop) × (session user k kernel reads c ≡ some conn')
          × (conn'.cli_intf
              ≡ (telnet_reader_feed k
                  (telnet_rx_databack user)
                  (telnet_rx_cmdback user)
                  c.telnet
                  (joined reads)
                  c.cli_intf).1)
          × (conn'.sent
              ≡ (hear_all
                  (room_of storage)
                  kernel
                  0
                  (iacs_to_send k o ∷ conn'.cli_intf.tx)
                  (true, [])).1)
    session-heard l rx_buf storage conn reads size fits =
        let c = alloc_cli_connection user k kernel o l rx_buf storage conn in
        let long = length-alloc user k kernel o l rx_buf storage conn ∙ size in
        let (conn', ran, same) = session-joined user k kernel 128 reads c long fits in
        let h =
          session-IsHeard k kernel (room_of storage) (iacs_to_send k o) 128 reads c conn' long fits
            (alloc-IsHeard l rx_buf storage conn) ran in
        (
          conn',
          ran,
          ap (λ (x : TelnetReader × CliIntf). x.1) same,
          ap (λ (x : Client). x.1) h.heard,
        )
