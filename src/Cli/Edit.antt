-- ===== src/Cli/Edit.antt =====
-- The buffer against a line editor without one.
use kongjaexpress.Prelude.{
  ℕ, zero, suc, ◌+◌, ◌-◌, ◌%◌, ◌^◌, ◌≤◌, ◌<◌, ◌≡◌, ◌≢◌, refl, ap, List, [], ◌∷◌, ◌++◌, ◌||◌, ltb,
  ◌==◌, if◌then◌else◌, arith, length, take, set, length-set, take-set, length-take, take-take,
}
use kongjaexpress.Cli.{CliIntf, Command, max_command_len, eol_char, c_string, rx_byte}

-- the bytes of the line so far
abbrev pub line : CliIntf → List ℕ
line intf = take intf.cmd_buffer_ndx intf.cmd_buffer

pub record IsBounded (intf : CliIntf) : Type 0 where
  pub memory : length intf.cmd_buffer ≡ 255
  pub short : intf.cmd_buffer_ndx ≤ max_command_len

-- A byte other than the end of the line: a full line ignores it, a backspace and a delete take the
-- last byte away, and anything else is appended.
abbrev pub press : List ℕ → ℕ → List ℕ
press text b =
    if ltb (length text) max_command_len
    then (if b == 8 || b == 0x7f then take (length text - 1) text else text ++ b ∷ [])
    else text

-- The string in the buffer after the terminating zero is written.
pub c_string-set :
    (buf : List ℕ) (n : ℕ) → n < length buf → c_string (set buf n 0) ≡ c_string (take n buf)
unfolding c_string
c_string-set [] n h = absurd (omega arith)
c_string-set (b ∷ buf) zero h = refl
c_string-set (b ∷ buf) (suc n) h = ground (arith, c_string-set buf n)

pub rx_byte-IsBounded :
    (user : List Command) (intf : CliIntf) (b : ℕ)
    → IsBounded intf
    → IsBounded (rx_byte user intf b)
unfolding rx_byte
rx_byte-IsBounded user intf b h = record {
  memory = ground (
    arith,
    h.memory,
    length-set intf.cmd_buffer intf.cmd_buffer_ndx b,
    length-set intf.cmd_buffer intf.cmd_buffer_ndx 0,
  );
  short = ground (arith, h.short);
}

next_ndx : (n : ℕ) → n ≤ max_command_len → (n + 1) % 2 ^ 8 ≡ suc n
next_ndx n h = omega arith

pub line-press :
    (user : List Command) (intf : CliIntf) (b : ℕ)
    → IsBounded intf
    → b ≢ eol_char
    → line (rx_byte user intf b) ≡ press (line intf) b
unfolding rx_byte
line-press user intf b h other =
    let n = intf.cmd_buffer_ndx in
    let buf = intf.cmd_buffer in
    let size : length (line intf) ≡ n = omega (arith, length-take n buf, h.memory, h.short) in
    ground (
      arith,
      size,
      h.memory,
      h.short,
      other,
      take-take (n - 1) n buf,
      take-set n buf b,
      ap (λ (k : ℕ). take k (set buf n b)) (next_ndx n h.short),
      ap (λ (k : ℕ). take (k - 1) (line intf)) size,
    )
