-- ===== src/Serial/Settings.antt =====
-- The settings of a line against the configuration.
use Prim.Native.Nat.{bit_and, bit_or}
use kongjaexpress.Prelude.{
  ℕ, ◌≡◌, refl, ap, ◌∙◌, arith, true, false, not, ◌||◌, ◌==◌, if◌then◌else◌, Option, some, ◌⊎◌,
}
use kongjaexpress.Serial.Flags.{
  bit_and-bit_or, bit_and-nothing, flag_set, flag_set-bit_or, flag_set-zero, flag_set_self,
}
use kongjaexpress.Prelude.Bits.{zero-bit_or}
use kongjaexpress.Serial.{
  SerialConfig, SerialParity, parity_none, parity_even, parity_odd, Tty, Termios,
  check_serial_config, set_serial_attribute, serial_init, is_allowed,
}
use kongjaexpress.Serial.Flagged.{
  IsTermios, line_of, parity_bits, flag_set-with_parity, has_parity, input_flag, check_flag,
  strip_flag, size_of, bit_and-joined, bit_and-with_parity,
}

module _ (t : Termios) (l : IsTermios t) (cfg : SerialConfig) (tty : Tty) where
  abbrev cleared : Tty
  cleared = record tty { c_cflag = 0; c_iflag = 0; c_lflag = 0; c_oflag = 0 }

  abbrev fast_out : Tty
  fast_out = t.cfsetospeed cleared cfg.baud

  abbrev fast : Tty
  fast = t.cfsetispeed fast_out cfg.baud

  abbrev size_bits : ℕ
  size_bits = if cfg.data_bit == 7 then 0 else t.cs8

  abbrev stop_bits : ℕ
  stop_bits = if cfg.stop_bit == 1 then 0 else t.cstopb

  -- a flag that the speeds leave is that of the three parts
  parts :
      (m : ℕ)
      → flag_set m fast.c_cflag ≡ false
      → flag_set m (set_serial_attribute t cfg tty).c_cflag
        ≡ (flag_set m size_bits || flag_set m stop_bits || flag_set m (parity_bits t cfg.parity))
  unfolding set_serial_attribute
  parts m clear =
      rw
        (
          flag_set-with_parity t cfg.parity m,
          flag_set-bit_or m (bit_or fast.c_cflag size_bits) stop_bits,
          flag_set-bit_or m fast.c_cflag size_bits,
          clear,
        )
        (ground arith)

  size_apart : (m : ℕ) → flag_set m t.cs8 ≡ false → flag_set m size_bits ≡ false
  size_apart m h = elim (cfg.data_bit == 7) as (λ b. flag_set m (if b then 0 else t.cs8) ≡ false) [
    | true ↦ flag_set-zero m
    | false ↦ h
  ]

  stop_apart : (m : ℕ) → flag_set m t.cstopb ≡ false → flag_set m stop_bits ≡ false
  stop_apart m h =
      elim (cfg.stop_bit == 1) as (λ b. flag_set m (if b then 0 else t.cstopb) ≡ false) [
        | true ↦ flag_set-zero m
        | false ↦ h
      ]

  parity_apart :
      (m : ℕ)
      → flag_set m t.parenb ≡ false
      → flag_set m t.parodd ≡ false
      → (p : SerialParity) → flag_set m (parity_bits t p) ≡ false
  parity_apart m e o parity_none = flag_set-zero m
  parity_apart m e o parity_even = e
  parity_apart m e o parity_odd = ground (arith, flag_set-bit_or m t.parenb t.parodd)

  stop_given : flag_set t.cstopb stop_bits ≡ not (cfg.stop_bit == 1)
  stop_given =
      elim (cfg.stop_bit == 1) as (λ b. flag_set t.cstopb (if b then 0 else t.cstopb) ≡ not b) [
        | true ↦ flag_set-zero t.cstopb
        | false ↦ flag_set_self t.cstopb l.cstopb
      ]

  parity_given :
      (p : SerialParity)
      → (if flag_set t.parenb (parity_bits t p)
          then (if flag_set t.parodd (parity_bits t p) then parity_odd else parity_even)
          else parity_none)
        ≡ p
  parity_given parity_none = rw (flag_set-zero t.parenb) refl
  parity_given parity_even = rw (flag_set_self t.parenb l.parenb, l.parenb-parodd.other) refl
  parity_given parity_odd =
      rw
        (
          flag_set-bit_or t.parenb t.parenb t.parodd,
          flag_set-bit_or t.parodd t.parenb t.parodd,
          flag_set_self t.parenb l.parenb,
          flag_set_self t.parodd l.parodd,
          l.parenb-parodd.other,
        )
        refl

  -- The character size is what the first part gives.
  size_given : bit_and (set_serial_attribute t cfg tty).c_cflag t.csize ≡ bit_and size_bits t.csize
  unfolding set_serial_attribute
  size_given =
      let speeds : bit_and fast.c_cflag t.csize ≡ 0 =
        l.input_speed.csize fast_out cfg.baud
        ∙ l.output_speed.csize cleared cfg.baud
        ∙ bit_and-nothing t.csize in
      bit_and-with_parity t cfg.parity _
        (parity_apart t.csize l.csize-parenb.one l.csize-parodd.one cfg.parity)
      ∙ bit_and-joined t (bit_or fast.c_cflag size_bits) stop_bits
          (stop_apart t.csize l.csize-cstopb.one)
      ∙ bit_and-bit_or t.csize t.csize fast.c_cflag size_bits (omega arith)
      ∙ ap (λ (x : ℕ). bit_or x (bit_and size_bits t.csize)) speeds
      ∙ zero-bit_or (bit_and size_bits t.csize)

  size_of-size_bits : size_of t (bit_and size_bits t.csize) ≡ (if cfg.data_bit == 7 then 5 else 8)
  size_of-size_bits =
      elim (cfg.data_bit == 7)
        as (λ b. size_of t (bit_and (if b then 0 else t.cs8) t.csize) ≡ (if b then 5 else 8)) [
          | true ↦
              ap (size_of t) (bit_and-nothing t.csize) ∙ ground (arith, l.cs5, l.cs6, l.cs7, l.cs8)
          | false ↦ ap (size_of t) l.cs8-csize ∙ ground arith
        ]

  clear_cstopb : flag_set t.cstopb fast.c_cflag ≡ false
  clear_cstopb =
      l.input_speed.cstopb fast_out cfg.baud
      ∙ l.output_speed.cstopb cleared cfg.baud
      ∙ flag_set-zero t.cstopb

  clear_parenb : flag_set t.parenb fast.c_cflag ≡ false
  clear_parenb =
      l.input_speed.parenb fast_out cfg.baud
      ∙ l.output_speed.parenb cleared cfg.baud
      ∙ flag_set-zero t.parenb

  clear_parodd : flag_set t.parodd fast.c_cflag ≡ false
  clear_parodd =
      l.input_speed.parodd fast_out cfg.baud
      ∙ l.output_speed.parodd cleared cfg.baud
      ∙ flag_set-zero t.parodd

  -- A flag of the parity is that of the parity's bits, whatever the others are.
  parity_part :
      (m : ℕ)
      → flag_set m fast.c_cflag ≡ false
      → flag_set m t.cs8 ≡ false
      → flag_set m t.cstopb ≡ false
      → flag_set m (set_serial_attribute t cfg tty).c_cflag ≡ flag_set m (parity_bits t cfg.parity)
  parity_part m clear size stop = rw (parts m clear, size_apart m size, stop_apart m stop) refl

  checked :
      (cfg.data_bit ≡ 7) ⊎ (cfg.data_bit ≡ 8)
      → (cfg.stop_bit ≡ 1) ⊎ (cfg.stop_bit ≡ 2)
      → is_allowed cfg.baud t.bauds ≡ true
      → check_serial_config t cfg ≡ true
  unfolding check_serial_config
  checked size stop speed = ground arith

  input_given :
      (m : ℕ)
      → flag_set m (bit_or t.inpck t.istrip) ≡ true
      → flag_set m (set_serial_attribute t cfg tty).c_iflag ≡ has_parity cfg.parity
  unfolding set_serial_attribute
  input_given m h =
      input_flag t cfg.parity m _ h
        (l.input_speed.input fast_out cfg.baud ∙ l.output_speed.input cleared cfg.baud)

  waits : ((set_serial_attribute t cfg tty).vmin ≡ 1) × ((set_serial_attribute t cfg tty).vtime ≡ 0)
  unfolding set_serial_attribute
  waits = (refl, refl)

  line_of-set_serial_attribute :
      check_serial_config t cfg ≡ true
      → line_of t (set_serial_attribute t cfg tty)
        ≡ (if cfg.data_bit == 7 then 5 else 8, cfg.stop_bit, cfg.parity)
  unfolding check_serial_config
  line_of-set_serial_attribute checked =
      let bits = ap (size_of t) size_given ∙ size_of-size_bits in
      let stops : (if flag_set t.cstopb (set_serial_attribute t cfg tty).c_cflag then 2 else 1)
          ≡ cfg.stop_bit =
        rw
          (
            parts t.cstopb clear_cstopb,
            stop_given,
            size_apart t.cstopb l.cs8-cstopb.other,
            parity_apart t.cstopb l.cstopb-parenb.one l.cstopb-parodd.one cfg.parity,
          )
          (ground arith) in
      let even = parity_part t.parenb clear_parenb l.cs8-parenb.other l.cstopb-parenb.other in
      let odd = parity_part t.parodd clear_parodd l.cs8-parodd.other l.cstopb-parodd.other in
      λ i. (
        bits i,
        stops i,
        ((λ j. if even j then (if odd j then parity_odd else parity_even) else parity_none)
              ∙ parity_given cfg.parity)
            i,
      )

  -- The flags of termios.h have bits and the fields of c_cflag have none in common, the speeds leave
  -- them, and CS5 is 0; `open` gives a descriptor and the settings can be made. The configuration has 7
  -- or 8 bits, 1 or 2 stop bits and one of the speeds allowed. Then the descriptor is returned and the
  -- flags of the line stand for 8 bits if the configuration has 8, but for 5 if it has 7, and for
  -- exactly these stop bits and this parity. If there is a parity, and only then, the parity of what is
  -- received is checked and its eighth bit is removed; a read waits for one byte.
  pub serial_init-line_of :
      (fd : ℕ)
      → (cfg.data_bit ≡ 7) ⊎ (cfg.data_bit ≡ 8)
      → (cfg.stop_bit ≡ 1) ⊎ (cfg.stop_bit ≡ 2)
      → is_allowed cfg.baud t.bauds ≡ true
      → let r = serial_init t cfg (some fd) true tty in
        (r.0 ≡ some fd)
        × (line_of t r.1 ≡ (if cfg.data_bit == 7 then 5 else 8, cfg.stop_bit, cfg.parity))
        × (flag_set t.inpck r.1.c_iflag ≡ has_parity cfg.parity)
        × (flag_set t.istrip r.1.c_iflag ≡ has_parity cfg.parity)
        × (r.1.vmin ≡ 1)
        × (r.1.vtime ≡ 0)
  unfolding serial_init
  serial_init-line_of fd size stop speed =
      let ok = checked size stop speed in
      let settings = set_serial_attribute t cfg tty in
      let result : serial_init t cfg (some fd) true tty ≡ (some fd, settings) = rw ok refl in
      (
        ap (λ (r : Option ℕ × Tty). r.0) result,
        ap (λ (r : Option ℕ × Tty). line_of t r.1) result ∙ line_of-set_serial_attribute ok,
        ap (λ (r : Option ℕ × Tty). flag_set t.inpck r.1.c_iflag) result
            ∙ input_given t.inpck (check_flag t l.inpck),
        ap (λ (r : Option ℕ × Tty). flag_set t.istrip r.1.c_iflag) result
            ∙ input_given t.istrip (strip_flag t l.istrip),
        ap (λ (r : Option ℕ × Tty). r.1.vmin) result ∙ waits.0,
        ap (λ (r : Option ℕ × Tty). r.1.vtime) result ∙ waits.1,
      )
