-- ===== src/CliTelnet/Output.antt =====
-- What reaches the client of a telnet connection.
use kongjaexpress.Prelude.{
  ℕ, ◌+◌, ◌-◌, ◌≡◌, refl, ap, ◌∙◌, arith, List, [], ◌∷◌, ◌++◌, Bool, true, false, not, ◌&&◌, leb,
  length, take, append-nil,
}
use kongjaexpress.Watcher.{EventLoop}
use kongjaexpress.Stream.{Stream, WriteResult, wrote, would_block, failed, stream_write}
use kongjaexpress.Stream.Queue.{write_waiting, write_taken, write_refused, write_failed, write-rx}
use kongjaexpress.CircBuffer.{circ_buffer_is_empty}
use kongjaexpress.CliTelnet.{Kernel, Writer, cli_put_tx_data, put_all}

-- whether what is printed still reaches the client, and what reached it
abbrev pub Client : Type 0
Client = Bool × List ℕ

-- A call whose `write` takes `n` bytes of those it is given. If bytes are left and fit in `room`, the
-- client gets nothing from then on; if they do not fit, they are lost.
abbrev pub hear_some : ℕ → ℕ → List ℕ → List ℕ → Client
hear_some room n bytes heard =
    (not (leb 1 (length bytes - n) && leb (length bytes - n) room), heard ++ take n bytes)

abbrev pub hear : ℕ → WriteResult → List ℕ → Client → Client
hear room ret bytes (false, heard) = (false, heard)
hear room (wrote n) bytes (true, heard) = hear_some room n bytes heard
hear room would_block bytes (true, heard) = hear_some room 0 bytes heard
hear room failed bytes (true, heard) = (true, heard)

unfoldable pub hear_all : ℕ → Kernel → ℕ → List (List ℕ) → Client → Client
hear_all room kernel i [] c = c
hear_all room kernel i (bytes ∷ more) c =
    hear_all room kernel (i + 1) more (hear room (kernel i (length bytes)) bytes c)

pub hear_all-append :
    (room : ℕ) (kernel : Kernel) (xs ys : List (List ℕ)) (i : ℕ) (c : Client)
    → hear_all room kernel i (xs ++ ys) c
      ≡ hear_all room kernel (i + length xs) ys (hear_all room kernel i xs c)
unfolding hear_all
hear_all-append room kernel [] ys i c = ap (λ (n : ℕ). hear_all room kernel n ys c) (omega arith)
hear_all-append room kernel (x ∷ xs) ys i c =
    hear_all-append room kernel xs ys (i + 1) (hear room (kernel i (length x)) x c)
    ∙ ap
        (λ (n : ℕ).
          hear_all room kernel n ys
            (hear_all room kernel (i + 1) xs (hear room (kernel i (length x)) x c)))
        (omega arith)

module _ {Loop : Type 0} ⦃ev : EventLoop Loop⦄ where
  abbrev pub client : Writer Loop → Client
  client w = (circ_buffer_is_empty w.0.tx_buf, w.1)

  -- one call, by what `write` returns
  heard-write :
      (ret : WriteResult) (bytes : List ℕ) (stream : Stream Loop) (sent : List ℕ) (e : Bool)
      → circ_buffer_is_empty stream.tx_buf ≡ e
      → let r = stream_write stream bytes ret in
        ◌≡◌ {A = Client}
          (circ_buffer_is_empty r.stream.tx_buf, sent ++ r.out)
          (hear stream.tx_buf.size ret bytes (e, sent))
  heard-write ret bytes stream sent false h =
      let (out, waits) = write_waiting stream bytes ret h in
      λ i. (waits i, (ap (λ (bs : List ℕ). sent ++ bs) out ∙ append-nil sent) i)
  heard-write (wrote n) bytes stream sent true h =
      let (out, left) = write_taken stream bytes n h in λ i. (left i, sent ++ out i)
  heard-write would_block bytes stream sent true h =
      let (out, left) = write_refused stream bytes h in λ i. (left i, sent ++ out i)
  heard-write failed bytes stream sent true h =
      let (out, left) = write_failed stream bytes h in
      λ i. (left i, (ap (λ (bs : List ℕ). sent ++ bs) out ∙ append-nil sent) i)

  pub client-put :
      (kernel : Kernel) (i : ℕ) (bytes : List ℕ) (w : Writer Loop)
      → let w' = cli_put_tx_data kernel i bytes w in
        (client w' ≡ hear w.0.tx_buf.size (kernel i (length bytes)) bytes (client w))
        × (w'.0.rx_buf ≡ w.0.rx_buf)
        × (w'.0.tx_buf.size ≡ w.0.tx_buf.size)
  unfolding cli_put_tx_data
  client-put kernel i bytes (stream, sent) =
      let ret = kernel i (length bytes) in
      (
        heard-write ret bytes stream sent (circ_buffer_is_empty stream.tx_buf) refl,
        (write-rx stream bytes ret).0,
        (write-rx stream bytes ret).1,
      )

  -- All calls, over a stream with room for `room` bytes.
  pub client-put_all :
      (room : ℕ) (kernel : Kernel) (calls : List (List ℕ)) (i : ℕ) (w : Writer Loop)
      → w.0.tx_buf.size ≡ room
      → let w' = put_all kernel i calls w in
        (client w' ≡ hear_all room kernel i calls (client w))
        × (w'.0.rx_buf ≡ w.0.rx_buf)
        × (w'.0.tx_buf.size ≡ room)
  unfolding put_all hear_all
  client-put_all room kernel [] i w h = (refl, refl, h)
  client-put_all room kernel (bytes ∷ more) i w h =
      let (one, rx, size) = client-put kernel i bytes w in
      let w' = cli_put_tx_data kernel i bytes w in
      let (rest, rx', size') = client-put_all room kernel more (i + 1) w' (size ∙ h) in
      (
        rest
            ∙ ap (hear_all room kernel (i + 1) more) one
            ∙ ap
                (λ (n : ℕ).
                  hear_all room kernel (i + 1) more
                    (hear n (kernel i (length bytes)) bytes (client w)))
                h,
        rx' ∙ rx,
        size',
      )
