-- ===== src/Cli/Printed.antt =====
-- What the command line prints comes behind what it printed before.
use kongjaexpress.Prelude.{
  ℕ, ◌≡◌, ap, ◌∙◌, List, [], ◌∷◌, ◌++◌, arith, length, drop, drop-length-append, append-nil,
  append_assoc, set,
}
use kongjaexpress.Cli.{
  CliIntf, Command, rx_byte, cli_handle_rx, cli_execute_command, c_string, prompt,
}

-- an interface that has printed `base` at first
abbrev pub Printed : List (List ℕ) → CliIntf → Type 0
Printed base intf = (more : List (List ℕ)) × (intf.tx ≡ base ++ more)

-- what one byte makes it print
rx_byte-prints :
    (user : List Command) (intf : CliIntf) (b : ℕ)
    → (rx_byte user intf b).tx ≡ intf.tx ++ drop (length intf.tx) (rx_byte user intf b).tx
unfolding rx_byte
rx_byte-prints user intf b =
    let ended = cli_execute_command user (c_string (set intf.cmd_buffer intf.cmd_buffer_ndx 0)) in
    ground (
      arith,
      drop-length-append intf.tx [],
      append-nil intf.tx,
      drop-length-append intf.tx ((8 ∷ 32 ∷ 8 ∷ []) ∷ []),
      drop-length-append intf.tx ((b ∷ []) ∷ []),
      append_assoc intf.tx ended.1 (prompt ∷ []),
      drop-length-append intf.tx (ended.1 ++ prompt ∷ []),
    )

pub cli_handle_rx-Printed :
    (user : List Command) (base : List (List ℕ)) (bytes : List ℕ) (intf : CliIntf)
    → Printed base intf
    → Printed base (cli_handle_rx user intf bytes)
unfolding cli_handle_rx
cli_handle_rx-Printed user base [] intf p = p
cli_handle_rx-Printed user base (b ∷ bs) intf (more, p) =
    let new = drop (length intf.tx) (rx_byte user intf b).tx in
    cli_handle_rx-Printed user base bs (rx_byte user intf b)
      (more ++ new, rx_byte-prints user intf b ∙ ap (λ t. t ++ new) p ∙ append_assoc base more new)
