-- ===== src/Cli/Lines.antt =====
-- The command line against an editor of a list of bytes, which takes lines of 252 bytes: the same lines
-- are executed.
use kongjaexpress.Prelude.{
  ℕ, ◌≡◌, ◌≢◌, refl, ap, ◌∙◌, List, [], ◌∷◌, true, false, arith, ◌==◌, ==_iff, if◌then◌else◌,
}
use kongjaexpress.Cli.{
  CliIntf, Command, Outcome, eol_char, c_string, cli_execute_command, rx_byte, cli_handle_rx,
}
use kongjaexpress.Cli.Edit.{line, press, IsBounded, rx_byte-IsBounded, line-press, c_string-set}

-- the line so far, and what the lines before led to, the last one first
abbrev pub Editor : Type 0
Editor = List ℕ × List Outcome

abbrev pub view : CliIntf → Editor
view intf = (line intf, intf.outcomes)

-- A byte at the editor: the end of the line executes the line up to the first zero in it.
abbrev pub type_byte : List Command → Editor → ℕ → Editor
type_byte user (text, done) b =
    if b == eol_char
    then ([], (cli_execute_command user (c_string text)).0 ∷ done)
    else (press text b, done)

unfoldable pub type_bytes : List Command → Editor → List ℕ → Editor
type_bytes user editor [] = editor
type_bytes user editor (b ∷ bs) = type_bytes user (type_byte user editor b) bs

rx_byte-outcomes :
    (user : List Command) (intf : CliIntf) (b : ℕ)
    → b ≢ eol_char
    → (rx_byte user intf b).outcomes ≡ intf.outcomes
unfolding rx_byte
rx_byte-outcomes user intf b other = ground (arith, other)

rx_byte-eol :
    (user : List Command) (intf : CliIntf)
    → IsBounded intf
    → view (rx_byte user intf eol_char) ≡ type_byte user (view intf) eol_char
unfolding rx_byte
rx_byte-eol user intf h =
    ap (λ (cmd : List ℕ). ended ((cli_execute_command user cmd).0 ∷ intf.outcomes))
      (c_string-set intf.cmd_buffer intf.cmd_buffer_ndx (omega (arith, h.memory, h.short)))
  where
    ended : List Outcome → Editor
    ended outcomes = ([], outcomes)

view-rx_byte :
    (user : List Command) (intf : CliIntf) (b : ℕ)
    → IsBounded intf
    → view (rx_byte user intf b) ≡ type_byte user (view intf) b
view-rx_byte user intf b h =
    elim (b == eol_char)
        as (λ c.
          (b == eol_char) ≡ c
          → view (rx_byte user intf b) ≡ (
              if c
              then ([], (cli_execute_command user (c_string (line intf))).0 ∷ intf.outcomes)
              else (press (line intf) b, intf.outcomes))) [
                | true ↦ λ e.
                    ap (λ (c : ℕ). view (rx_byte user intf c)) ((==_iff b eol_char).0 e)
                    ∙ rx_byte-eol user intf h
                | false ↦ λ e i. (
                  line-press user intf b h (ground arith) i,
                  rx_byte-outcomes user intf b (ground arith) i,
                )
              ]
      refl

-- Whatever the bytes are: an interface whose line has at most 252 bytes executes what the editor
-- executes, in the same order, and holds the editor's line, which has at most 252 bytes again.
pub view-cli_handle_rx :
    (user : List Command) (bytes : List ℕ) (intf : CliIntf)
    → IsBounded intf
    → (view (cli_handle_rx user intf bytes) ≡ type_bytes user (view intf) bytes)
      × IsBounded (cli_handle_rx user intf bytes)
unfolding cli_handle_rx type_bytes
view-cli_handle_rx user [] intf h = (refl, h)
view-cli_handle_rx user (b ∷ bs) intf h =
    let (same, bounded) =
      view-cli_handle_rx user bs (rx_byte user intf b) (rx_byte-IsBounded user intf b h) in
    (same ∙ ap (λ (e : Editor). type_bytes user e bs) (view-rx_byte user intf b h), bounded)
