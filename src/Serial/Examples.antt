-- ===== src/Serial/Examples.antt =====
-- The serial line of the command line, with the flags of Linux and an even parity.
use kongjaexpress.Prelude.{◌≡◌, refl, arith, [], ◌∷◌, some, true, inl, inr}
use kongjaexpress.Serial.{
  SerialConfig, parity_even, parity_odd, Tty, Termios, is_allowed, check_serial_config,
  set_serial_attribute, serial_init,
}
use kongjaexpress.Serial.Flags.{flag_set}
use kongjaexpress.Serial.Settings.{serial_init-line_of}
use kongjaexpress.Serial.Flagged.{KeepsFlags, IsTermios, line_of}

-- a system that has the speeds in fields of their own
abbrev linux : Termios
linux = record {
  csize = 48;
  cs5 = 0;
  cs6 = 16;
  cs7 = 32;
  cs8 = 48;
  cstopb = 64;
  parenb = 256;
  parodd = 512;
  inpck = 16;
  istrip = 32;
  bauds = 9 ∷ 11 ∷ 12 ∷ 13 ∷ 14 ∷ 15 ∷ 4097 ∷ 4098 ∷ [];
  cfsetospeed = λ tty b. tty;
  cfsetispeed = λ tty b. tty;
}

linux-IsTermios : IsTermios linux
unfolding flag_set
linux-IsTermios = record {
  cs5 = refl;
  cs6 = omega arith;
  cs7 = omega arith;
  cs8 = omega arith;
  cs8-csize = refl;
  cstopb = omega arith;
  parenb = omega arith;
  parodd = omega arith;
  inpck = omega arith;
  istrip = omega arith;
  csize-cstopb = record { one = refl; other = refl };
  csize-parenb = record { one = refl; other = refl };
  csize-parodd = record { one = refl; other = refl };
  cs8-cstopb = record { one = refl; other = refl };
  cs8-parenb = record { one = refl; other = refl };
  cs8-parodd = record { one = refl; other = refl };
  cstopb-parenb = record { one = refl; other = refl };
  cstopb-parodd = record { one = refl; other = refl };
  parenb-parodd = record { one = refl; other = refl };
  output_speed = same_flags;
  input_speed = same_flags;
}
  where
    same_flags : KeepsFlags linux (λ tty b. tty)
    same_flags = record {
      csize = λ tty b. refl;
      cstopb = λ tty b. refl;
      parenb = λ tty b. refl;
      parodd = λ tty b. refl;
      input = λ tty b. refl;
    }

abbrev usb : SerialConfig
usb = record { baud = 4098; data_bit = 8; stop_bit = 1; parity = parity_even }

abbrev cooked : Tty
cooked = record {
  c_cflag = 1215;
  c_iflag = 1280;
  c_lflag = 35387;
  c_oflag = 5;
  vmin = 0;
  vtime = 7;
}

-- seven bits, which the line does not get
abbrev seven : SerialConfig
seven = record { baud = 4098; data_bit = 7; stop_bit = 2; parity = parity_odd }

seven_bits : line_of linux (serial_init linux seven (some 6) true cooked).1 ≡ (5, 2, parity_odd)
unfolding serial_init check_serial_config set_serial_attribute is_allowed flag_set
seven_bits = refl

serial_init-line_of_example :
    let r = serial_init linux usb (some 6) true cooked in
    (r.0 ≡ some 6)
    × (line_of linux r.1 ≡ (8, 1, parity_even))
    × (flag_set linux.inpck r.1.c_iflag ≡ true)
    × (flag_set linux.istrip r.1.c_iflag ≡ true)
    × (r.1.vmin ≡ 1)
    × (r.1.vtime ≡ 0)
unfolding is_allowed
serial_init-line_of_example =
    serial_init-line_of linux linux-IsTermios usb cooked 6 (inr refl) (inl refl) refl
