-- ===== src/CliTelnet/Served.antt =====
-- A client among the others of the server.
use kongjaexpress.Prelude.{ℕ, ◌≡◌, ◌≢◌, List, [], ◌∷◌, Option, ◌==◌, if◌then◌else◌, ◌⊎◌}
use kongjaexpress.Stream.{ReadResult, WatcherEvent, Stream, closed, broken, got}
use kongjaexpress.CliTelnet.Server.{ServerEvent, new_client, client_event}

-- what a read gives
abbrev pub bytes_read : ReadResult → List ℕ
bytes_read (got bs) = bs
bytes_read closed = []
bytes_read broken = []

module _ {Loop : Type 0} where
  -- the events of a descriptor are reads of bytes
  abbrev pub IsRead : ℕ → ServerEvent Loop → Type 0
  IsRead sd (new_client mem newsd) = Unit
  IsRead sd (client_event on e rd wr) =
      (on ≢ sd) ⊎ ((bs : List ℕ) × (e ≡ WatcherEvent.rx) × (rd ≡ got bs))

  abbrev pub reads_of : ℕ → List (ServerEvent Loop) → List (List ℕ)
  reads_of sd [] = []
  reads_of sd (new_client mem newsd ∷ es) = reads_of sd es
  reads_of sd (client_event on e rd wr ∷ es) =
      let rest = reads_of sd es in if on == sd then bytes_read rd ∷ rest else rest
