-- ===== src/CliSerial/Examples.antt =====
-- `versio`, an end of the line that is ignored, and `n` with a carriage return, on a serial line.
use kongjaexpress.Prelude.{◌≡◌, refl, arith, List, [], ◌∷◌, some, true, false, replicate}
use kongjaexpress.Watcher.Examples.{ActiveSet, active_sets}
use kongjaexpress.Stream.{ReadResult, got, closed}
use kongjaexpress.CliTelnet.Examples.{slow, idle_stream}
use kongjaexpress.CliTelnet.Output.{hear_all}
use kongjaexpress.Cli.Lines.{view, type_bytes}
use kongjaexpress.CliSerial.{CliSerialIf, cli_serial_initialize, serial_reads}
use kongjaexpress.CliSerial.Typed.{all_bytes, initialize-type_bytes}

abbrev zeroed : CliSerialIf ActiveSet
zeroed = record {
  stream = idle_stream;
  cli_intf = record { cmd_buffer_ndx = 0; cmd_buffer = replicate 255 0; tx = []; outcomes = [] };
  sent = [];
  writes = 0;
}

abbrev opened : CliSerialIf ActiveSet
opened =
    cli_serial_initialize (some 6) (λ t. false) (replicate 128 0) (some (replicate 1024 0)) zeroed

abbrev reads : List ReadResult
reads = got (118 ∷ 101 ∷ 114 ∷ 115 ∷ 105 ∷ 111 ∷ []) ∷ closed ∷ got (110 ∷ 13 ∷ []) ∷ []

initialize-type_bytes_example :
    (intf' : CliSerialIf ActiveSet) × (serial_reads [] slow reads opened ≡ some intf')
    × (view intf'.cli_intf ≡ type_bytes [] ([], []) (all_bytes reads))
    × (intf'.sent ≡ (hear_all 1024 slow 0 intf'.cli_intf.tx (true, [])).1)
initialize-type_bytes_example =
    initialize-type_bytes [] slow 6 (λ t. false) (replicate 128 0) (some (replicate 1024 0)) zeroed
      reads (record { memory = refl; short = omega arith }) refl refl refl refl
      (omega arith, (omega arith, (omega arith, tt)))
