-- ===== src/Cli/Examples.antt =====
-- A line with a typing error that is taken back.
use kongjaexpress.Prelude.{ℕ, ◌≡◌, refl, List, [], ◌∷◌, replicate, arith}
use kongjaexpress.Cli.{
  CliIntf, executed, nothing, c_string, words, equal, lookup, all_commands, cli_execute_command,
  rx_byte, cli_handle_rx,
}
use kongjaexpress.Cli.Edit.{IsBounded}
use kongjaexpress.Cli.Lines.{view, type_bytes, view-cli_handle_rx}

abbrev fresh : CliIntf
fresh = record { cmd_buffer_ndx = 0; cmd_buffer = replicate 255 0; tx = []; outcomes = [] }

fresh-IsBounded : IsBounded fresh
fresh-IsBounded = record { memory = refl; short = omega arith }

-- `versiin`, two backspaces, `on`, a space and `x`, the end of the line; an empty line; `no`
abbrev keys : List ℕ
keys =
    118 ∷ 101 ∷ 114 ∷ 115 ∷ 105 ∷ 105 ∷ 110 ∷ 8 ∷ 8 ∷ 111 ∷ 110 ∷ 32 ∷ 120 ∷ 13 ∷ 13 ∷ 110 ∷ 111
    ∷ []

keys_test :
    (cli_handle_rx [] fresh keys).outcomes
    ≡ nothing
      ∷ executed
          (118 ∷ 101 ∷ 114 ∷ 115 ∷ 105 ∷ 111 ∷ 110 ∷ [])
          ((118 ∷ 101 ∷ 114 ∷ 115 ∷ 105 ∷ 111 ∷ 110 ∷ []) ∷ (120 ∷ []) ∷ [])
      ∷ []
unfolding cli_handle_rx rx_byte cli_execute_command c_string words lookup equal all_commands
keys_test = refl

view-cli_handle_rx_example :
    (view (cli_handle_rx [] fresh keys) ≡ type_bytes [] ([], []) keys)
    × IsBounded (cli_handle_rx [] fresh keys)
view-cli_handle_rx_example = view-cli_handle_rx [] keys fresh fresh-IsBounded
