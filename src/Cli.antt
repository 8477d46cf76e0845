-- ===== src/Cli.antt =====
-- src/cli/cli.c and inc/cli.h: the command line. The calls of `put_tx_data` are kept as a list of
-- what each of them is given, the first one first, and what was done with each line as a list, the
-- last line first. The texts are ASCII and fit in `_print_buffer`.
--
-- `cmd_buffer` is the memory up to the next field of the structure: 252 bytes and three of padding,
-- since a pointer follows. The zeros that `strtok_r` writes into it are left out: the buffer is
-- written anew before it is read.
pub mod Edit
pub mod Lines
pub mod Printed
mod Examples
use kongjaexpress.Prelude.{
  ℕ, zero, suc, ◌+◌, ◌-◌, ◌%◌, ◌^◌, List, [], ◌∷◌, ◌++◌, Bool, true, false, not, ◌&&◌, ◌||◌, Option,
  none, some, ltb, leb, ◌==◌, if◌then◌else◌, length, set, replicate,
}

-- CLI_COMMAND_MAX_ARGS, CLI_MAX_COMMAND_LEN and CLI_EOL_CHAR
abbrev pub max_args : ℕ
max_args = 16

abbrev pub max_command_len : ℕ
max_command_len = 252

abbrev pub eol_char : ℕ
eol_char = 13

abbrev eol : List ℕ
eol = 13 ∷ 10 ∷ []

abbrev prompt : List ℕ
prompt = 13 ∷ 10 ∷ 107 ∷ 106 ∷ 101 ∷ 120 ∷ 112 ∷ 114 ∷ 32 ∷ 62 ∷ 32 ∷ []

-- `cli_command_t`: the handler is what it prints for its arguments, call by call.
pub record Command : Type 0 where
  pub command : List ℕ
  pub help_str : List ℕ
  pub handler : List (List ℕ) → List (List ℕ)

-- `cli_printf` of a name that is padded to ten columns, with a colon and a space behind it
unfoldable pub padded : List ℕ → List ℕ
padded name = name ++ replicate (10 - length name) 32 ++ 58 ∷ 32 ∷ []

-- the two loops of `cli_command_help`, over commands
unfoldable pub help_lines : List Command → List (List ℕ)
help_lines [] = []
help_lines (c ∷ cs) = padded c.command ∷ (c.help_str ++ eol) ∷ help_lines cs

abbrev pub cli_command_version : List (List ℕ) → List (List ℕ)
cli_command_version argv =
    eol
    ∷ (75 ∷ 111 ∷ 110 ∷ 103 ∷ 106 ∷ 97 ∷ 69 ∷ 120 ∷ 112 ∷ 114 ∷ 101 ∷ 115 ∷ 115 ∷ 32 ∷ 67 ∷ 76 ∷ 73
        ∷ 32 ∷ 86 ∷ 49 ∷ 46 ∷ 48 ∷ eol)
    ∷ []

-- `cli_command_help`, with the commands that it lists
abbrev pub cli_command_help : List Command → List (List ℕ) → List (List ℕ)
cli_command_help cmds argv = eol ∷ help_lines cmds

-- `_core_commands`, with the commands that `help` lists
abbrev pub core_commands : List Command → List Command
core_commands cmds =
    record {
      command = 104 ∷ 101 ∷ 108 ∷ 112 ∷ [];
      help_str =
          115 ∷ 104 ∷ 111 ∷ 119 ∷ 32 ∷ 116 ∷ 104 ∷ 105 ∷ 115 ∷ 32 ∷ 99 ∷ 111 ∷ 109 ∷ 109 ∷ 97 ∷ 110
          ∷ 100 ∷ [];
      handler = cli_command_help cmds;
    }
    ∷ record {
      command = 118 ∷ 101 ∷ 114 ∷ 115 ∷ 105 ∷ 111 ∷ 110 ∷ [];
      help_str = 115 ∷ 104 ∷ 111 ∷ 119 ∷ 32 ∷ 118 ∷ 101 ∷ 114 ∷ 115 ∷ 105 ∷ 111 ∷ 110 ∷ [];
      handler = cli_command_version;
    }
    ∷ []

-- All commands, in the order in which a line is compared with them. `help` lists them in that order,
-- by their names and help texts alone.
unfoldable pub all_commands : List Command → List Command
all_commands user = core_commands (core_commands [] ++ user) ++ user

-- What a line leads to.
pub data Outcome : Type 0 where
  nothing too_many : Outcome
  executed : List ℕ → List (List ℕ) → Outcome
  unknown : List ℕ → Outcome

-- the string at the start of memory
unfoldable pub c_string : List ℕ → List ℕ
c_string [] = []
c_string (b ∷ bs) = if b == 0 then [] else b ∷ c_string bs

-- `strtok_r` with the separators space and tab, called until it returns NULL: the word that is being
-- read, and the rest of the string.
unfoldable pub words : List ℕ → List ℕ → List (List ℕ)
words [] [] = []
words (c ∷ word) [] = (c ∷ word) ∷ []
words [] (b ∷ bs) =
    let skipped = words [] bs in
    let begun = words (b ∷ []) bs in if b == 32 || b == 9 then skipped else begun
words (c ∷ word) (b ∷ bs) =
    let ended = words [] bs in
    let longer = words (c ∷ word ++ b ∷ []) bs in
    if b == 32 || b == 9 then (c ∷ word) ∷ ended else longer

-- `strcmp(…) == 0`
unfoldable pub equal : List ℕ → List ℕ → Bool
equal [] [] = true
equal [] (_ ∷ _) = false
equal (_ ∷ _) [] = false
equal (a ∷ xs) (b ∷ ys) = a == b && equal xs ys

-- The two loops over the commands.
unfoldable pub lookup : List Command → List ℕ → Option Command
lookup [] name = none
lookup (c ∷ cs) name = if equal c.command name then some c else lookup cs name

-- what is done and printed once the command of the line is looked up
abbrev pub run_command : Option Command → List ℕ → List (List ℕ) → Outcome × List (List ℕ)
run_command none name args = (
  unknown name,
  (13 ∷ 10 ∷ 85 ∷ 110 ∷ 107 ∷ 110 ∷ 111 ∷ 119 ∷ 110 ∷ 32 ∷ 67 ∷ 111 ∷ 109 ∷ 109 ∷ 97 ∷ 110 ∷ 100
        ∷ 58 ∷ 32 ∷ [])
      ∷ name
      ∷ eol
      ∷ [],
)
run_command (some c) name args = (
  executed c.command (name ∷ args),
  ((13 ∷ 10 ∷ 69 ∷ 120 ∷ 101 ∷ 99 ∷ 117 ∷ 116 ∷ 105 ∷ 110 ∷ 103 ∷ 32 ∷ []) ++ name ++ eol)
      ∷ c.handler (name ∷ args),
)

abbrev pub run_words : List Command → List (List ℕ) → Outcome × List (List ℕ)
run_words cmds [] = (nothing, [])
run_words cmds (name ∷ args) = run_command (lookup cmds name) name args

-- What was done, and what was printed.
unfoldable pub cli_execute_command : List Command → List ℕ → Outcome × List (List ℕ)
cli_execute_command user cmd =
    let argv = words [] cmd in
    if ltb max_args (length argv)
    then (
      too_many,
      (13 ∷ 10 ∷ 69 ∷ 114 ∷ 114 ∷ 111 ∷ 114 ∷ 58 ∷ 32 ∷ 116 ∷ 111 ∷ 111 ∷ 32 ∷ 109 ∷ 97 ∷ 110 ∷ 121
            ∷ 32 ∷ 97 ∷ 114 ∷ 103 ∷ 117 ∷ 109 ∷ 101 ∷ 110 ∷ 116 ∷ 115 ∷ 13 ∷ 10 ∷ [])
          ∷ [],
    )
    else run_words (all_commands user) argv

-- `cli_intf_t`
pub record CliIntf : Type 0 where
  pub cmd_buffer_ndx : ℕ
  pub cmd_buffer : List ℕ
  pub tx : List (List ℕ)
  pub outcomes : List Outcome

-- the end of a line, with what the line led to and what was printed
abbrev pub end_line : CliIntf → List ℕ → Outcome × List (List ℕ) → CliIntf
end_line intf cmd_buffer (outcome, printed) = record intf {
  cmd_buffer = cmd_buffer;
  cmd_buffer_ndx = 0;
  tx = intf.tx ++ printed ++ prompt ∷ [];
  outcomes = outcome ∷ intf.outcomes;
}

-- one byte in the loop of `cli_handle_rx`
unfoldable pub rx_byte : List Command → CliIntf → ℕ → CliIntf
rx_byte user intf b =
    let n = intf.cmd_buffer_ndx in
    let cmd = set intf.cmd_buffer n 0 in
    if not (b == eol_char) && ltb n max_command_len
    then (if b == 8 || b == 0x7f
        then (if ltb 0 n
            then record intf { tx = intf.tx ++ (8 ∷ 32 ∷ 8 ∷ []) ∷ []; cmd_buffer_ndx = n - 1 }
            else intf)
        else record intf {
          tx = intf.tx ++ (b ∷ []) ∷ [];
          cmd_buffer = set intf.cmd_buffer n b;
          cmd_buffer_ndx = (n + 1) % 2 ^ 8;
        })
    else if b == eol_char
    then end_line intf cmd (cli_execute_command user (c_string cmd))
    else intf

unfoldable pub cli_handle_rx : List Command → CliIntf → List ℕ → CliIntf
cli_handle_rx user intf [] = intf
cli_handle_rx user intf (b ∷ bs) = cli_handle_rx user (rx_byte user intf b) bs

-- `_cli_intf_list`, as numbers that stand for the interfaces; nothing reads it.
unfoldable pub cli_intf_register : ℕ → List ℕ → List ℕ
cli_intf_register intf list = list ++ intf ∷ []

unfoldable pub cli_intf_unregister : ℕ → List ℕ → List ℕ
cli_intf_unregister intf [] = []
cli_intf_unregister intf (x ∷ xs) =
    let rest = cli_intf_unregister intf xs in if x == intf then xs else x ∷ rest
