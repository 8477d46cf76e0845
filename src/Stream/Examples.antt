-- ===== src/Stream/Examples.antt =====
-- Streams over the event loop of Watcher/Examples.
use kongjaexpress.Prelude.{ℕ, ◌≡◌, ◌≢◌, refl, List, [], ◌∷◌, true, false, some, arith}
use kongjaexpress.CircBuffer.{CircBuffer}
use kongjaexpress.Watcher.Examples.{ActiveSet, active_sets}
use kongjaexpress.Stream.{Stream, WriteResult, wrote, would_block, stream_write}
use kongjaexpress.Stream.Stranded.{write_all, partial_write-stranded}

abbrev empty_buf : CircBuffer
empty_buf = record {
  buffer = some (0 ∷ 0 ∷ 0 ∷ 0 ∷ []);
  size = 4;
  data_size = 0;
  begin = 3;
  end = 3;
}

abbrev pub idle : Stream ActiveSet
idle = record {
  watcher = record {
    rx_watch = true;
    tx_watch = false;
    er_watch = true;
    started = true;
    loop = λ t. true;
  };
  rx_buf = [];
  rx_buf_size = 0;
  rx_data_len = 0;
  tx_buf = empty_buf;
}

abbrev message : List ℕ
message = 1 ∷ 2 ∷ 3 ∷ 4 ∷ 5 ∷ []

abbrev later : List (List ℕ × WriteResult)
later = (7 ∷ [], wrote 1) ∷ (8 ∷ 9 ∷ [], would_block) ∷ []

partial_write-stranded_example :
    let (out, s') = write_all later (stream_write idle message (wrote 2)).stream in
    (out ≡ []) × (s'.watcher.tx_watch ≡ false) × (s'.tx_buf.data_size ≢ 0)
partial_write-stranded_example =
    partial_write-stranded idle message 2 later (omega arith) refl (omega arith) (omega arith) refl
