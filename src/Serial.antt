-- ===== src/Serial.antt =====
-- src/serial/serial.c and inc/serial.h: the settings of a serial line. The flags and the speeds of
-- termios.h, and the two functions that set a speed, are a parameter; what `open` returns is an
-- argument. `tcgetattr` and `tcsetattr` read and write the settings.
pub mod Flags
pub mod Flagged
pub mod Settings
mod Examples
use Prim.Native.Nat.{bit_or}
use kongjaexpress.Prelude.{
  ℕ, List, [], ◌∷◌, Bool, true, false, not, ◌&&◌, ◌||◌, Option, none, some, ◌==◌, if◌then◌else◌,
}

-- `SerialParity` and `SerialConfig`
pub data SerialParity : Type 0 where
  parity_none parity_even parity_odd : SerialParity

pub record SerialConfig : Type 0 where
  pub baud : ℕ
  pub data_bit : ℕ
  pub stop_bit : ℕ
  pub parity : SerialParity

-- `struct termios`, with the two entries of `c_cc` that are used
pub record Tty : Type 0 where
  pub c_cflag : ℕ
  pub c_iflag : ℕ
  pub c_lflag : ℕ
  pub c_oflag : ℕ
  pub vmin : ℕ
  pub vtime : ℕ

-- What termios.h gives: `csize` is the mask of the character size, and `cs5` to `cs8` are its values;
-- `bauds` has B1200, B2400, B4800, B9600, B19200, B38400, B57600 and B115200
pub record Termios : Type 0 where
  pub csize : ℕ
  pub cs5 : ℕ
  pub cs6 : ℕ
  pub cs7 : ℕ
  pub cs8 : ℕ
  pub cstopb : ℕ
  pub parenb : ℕ
  pub parodd : ℕ
  pub inpck : ℕ
  pub istrip : ℕ
  pub bauds : List ℕ
  pub cfsetospeed : Tty → ℕ → Tty
  pub cfsetispeed : Tty → ℕ → Tty

-- the loop over `allowed_bauds`
unfoldable pub is_allowed : ℕ → List ℕ → Bool
is_allowed baud [] = false
is_allowed baud (b ∷ bs) = baud == b || is_allowed baud bs

module _ (t : Termios) where
  unfoldable pub check_serial_config : SerialConfig → Bool
  check_serial_config cfg =
      if not (cfg.data_bit == 7 || cfg.data_bit == 8)
      then false
      else if not (cfg.stop_bit == 1 || cfg.stop_bit == 2)
      then false
      else is_allowed cfg.baud t.bauds

  -- the `switch`
  abbrev pub with_parity : SerialParity → Tty → Tty
  with_parity parity_none tty = tty
  with_parity parity_even tty = record tty {
    c_cflag = bit_or tty.c_cflag t.parenb;
    c_iflag = bit_or tty.c_iflag (bit_or t.inpck t.istrip);
  }
  with_parity parity_odd tty = record tty {
    c_cflag = bit_or tty.c_cflag (bit_or t.parenb t.parodd);
    c_iflag = bit_or tty.c_iflag (bit_or t.inpck t.istrip);
  }

  -- what is given to `tcsetattr`, for what `tcgetattr` gives
  unfoldable pub set_serial_attribute : SerialConfig → Tty → Tty
  set_serial_attribute cfg tty =
      let cleared = record tty { c_cflag = 0; c_iflag = 0; c_lflag = 0; c_oflag = 0 } in
      let speedy = t.cfsetispeed (t.cfsetospeed cleared cfg.baud) cfg.baud in
      let bits = record speedy {
        c_cflag = bit_or speedy.c_cflag (if cfg.data_bit == 7 then 0 else t.cs8);
      } in
      let stops = record bits {
        c_cflag = bit_or bits.c_cflag (if cfg.stop_bit == 1 then 0 else t.cstopb);
      } in
      record (with_parity cfg.parity stops) { vmin = 1; vtime = 0 }

  -- The descriptor, and the settings of the line: the second argument is what `open` returns, the
  -- third whether `tcsetattr` succeeds, which the code does not look at.
  unfoldable pub serial_init : SerialConfig → Option ℕ → Bool → Tty → Option ℕ × Tty
  serial_init cfg none done tty = (none, tty)
  serial_init cfg (some fd) done tty =
      if check_serial_config cfg
      then (some fd, if done then set_serial_attribute cfg tty else tty)
      else (none, tty)
