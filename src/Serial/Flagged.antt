-- ===== src/Serial/Flagged.antt =====
-- What the flags of termios.h are taken to be, and what they stand for.
use Prim.Native.Nat.{bit_and, bit_or}
use kongjaexpress.Prelude.{
  ℕ, ◌≡◌, ◌≢◌, ap, ◌∙◌, arith, Bool, true, false, ◌||◌, ◌==◌, refl, if◌then◌else◌,
}
use kongjaexpress.Serial.Flags.{
  bit_and-bit_or, bit_and-apart, flag_set, flag_set-bit_or, flag_set-zero, flag_set_self,
}
use kongjaexpress.Prelude.Bits.{bit_or-zero}
use kongjaexpress.Serial.{
  SerialParity, parity_none, parity_even, parity_odd, Tty, Termios, with_parity,
}

-- two flags with no bit in common
pub record Apart (a b : ℕ) : Type 0 where
  pub one : flag_set a b ≡ false
  pub other : flag_set b a ≡ false

-- a function that sets a speed and leaves the flags as they are
pub record KeepsFlags (t : Termios) (set_speed : Tty → ℕ → Tty) : Type 0 where
  pub csize :
      (tty : Tty) (b : ℕ) → bit_and (set_speed tty b).c_cflag t.csize ≡ bit_and tty.c_cflag t.csize
  pub cstopb :
      (tty : Tty) (b : ℕ)
      → flag_set t.cstopb (set_speed tty b).c_cflag ≡ flag_set t.cstopb tty.c_cflag
  pub parenb :
      (tty : Tty) (b : ℕ)
      → flag_set t.parenb (set_speed tty b).c_cflag ≡ flag_set t.parenb tty.c_cflag
  pub parodd :
      (tty : Tty) (b : ℕ)
      → flag_set t.parodd (set_speed tty b).c_cflag ≡ flag_set t.parodd tty.c_cflag
  pub input : (tty : Tty) (b : ℕ) → (set_speed tty b).c_iflag ≡ tty.c_iflag

-- What POSIX says of the flags and of the two functions, and that CS5 is 0, as it is on Linux.
pub record IsTermios (t : Termios) : Type 0 where
  pub cs5 : t.cs5 ≡ 0
  pub cs6 : t.cs6 ≢ 0
  pub cs7 : t.cs7 ≢ 0
  pub cs8 : t.cs8 ≢ 0
  pub cs8-csize : bit_and t.cs8 t.csize ≡ t.cs8
  pub cstopb : t.cstopb ≢ 0
  pub parenb : t.parenb ≢ 0
  pub parodd : t.parodd ≢ 0
  pub inpck : t.inpck ≢ 0
  pub istrip : t.istrip ≢ 0
  pub csize-cstopb : Apart t.csize t.cstopb
  pub csize-parenb : Apart t.csize t.parenb
  pub csize-parodd : Apart t.csize t.parodd
  pub cs8-cstopb : Apart t.cs8 t.cstopb
  pub cs8-parenb : Apart t.cs8 t.parenb
  pub cs8-parodd : Apart t.cs8 t.parodd
  pub cstopb-parenb : Apart t.cstopb t.parenb
  pub cstopb-parodd : Apart t.cstopb t.parodd
  pub parenb-parodd : Apart t.parenb t.parodd
  pub output_speed : KeepsFlags t t.cfsetospeed
  pub input_speed : KeepsFlags t t.cfsetispeed

-- the bits of a character for what is in the place of the mask, and 0 for no value of it
abbrev pub size_of : Termios → ℕ → ℕ
size_of t size =
    if size == t.cs8
    then 8
    else if size == t.cs7
    then 7
    else if size == t.cs6
    then 6
    else if size == t.cs5
    then 5
    else 0

-- the bits of a character, the stop bits and the parity that the flags stand for
abbrev pub line_of : Termios → Tty → ℕ × ℕ × SerialParity
line_of t tty = (
  size_of t (bit_and tty.c_cflag t.csize),
  if flag_set t.cstopb tty.c_cflag then 2 else 1,
  if flag_set t.parenb tty.c_cflag
      then (if flag_set t.parodd tty.c_cflag then parity_odd else parity_even)
      else parity_none,
)

abbrev pub parity_bits : Termios → SerialParity → ℕ
parity_bits t parity_none = 0
parity_bits t parity_even = t.parenb
parity_bits t parity_odd = bit_or t.parenb t.parodd

pub flag_set-with_parity :
    (t : Termios) (p : SerialParity) (m : ℕ) (tty : Tty)
    → flag_set m (with_parity t p tty).c_cflag
      ≡ (flag_set m tty.c_cflag || flag_set m (parity_bits t p))
flag_set-with_parity t parity_none m tty = ground (arith, flag_set-zero m)
flag_set-with_parity t parity_even m tty = flag_set-bit_or m tty.c_cflag t.parenb
flag_set-with_parity t parity_odd m tty = flag_set-bit_or m tty.c_cflag (bit_or t.parenb t.parodd)

abbrev pub has_parity : SerialParity → Bool
has_parity parity_none = false
has_parity parity_even = true
has_parity parity_odd = true

-- a flag of the check of the parity, or of the removal of the eighth bit
pub input_flag :
    (t : Termios) (p : SerialParity) (m : ℕ) (tty : Tty)
    → flag_set m (bit_or t.inpck t.istrip) ≡ true
    → tty.c_iflag ≡ 0
    → flag_set m (with_parity t p tty).c_iflag ≡ has_parity p
input_flag t parity_none m tty h e = ap (flag_set m) e ∙ flag_set-zero m
input_flag t parity_even m tty h e =
    ground (arith, flag_set-bit_or m tty.c_iflag (bit_or t.inpck t.istrip), h)
input_flag t parity_odd m tty h e =
    ground (arith, flag_set-bit_or m tty.c_iflag (bit_or t.inpck t.istrip), h)

pub check_flag : (t : Termios) → t.inpck ≢ 0 → flag_set t.inpck (bit_or t.inpck t.istrip) ≡ true
check_flag t h = ground (arith, flag_set-bit_or t.inpck t.inpck t.istrip, flag_set_self t.inpck h)

pub strip_flag : (t : Termios) → t.istrip ≢ 0 → flag_set t.istrip (bit_or t.inpck t.istrip) ≡ true
strip_flag t h = ground (arith, flag_set-bit_or t.istrip t.inpck t.istrip, flag_set_self t.istrip h)

-- The character size after another word with no bit in the mask is joined.
pub bit_and-joined :
    (t : Termios) (a b : ℕ)
    → flag_set t.csize b ≡ false
    → bit_and (bit_or a b) t.csize ≡ bit_and a t.csize
bit_and-joined t a b h =
    bit_and-bit_or t.csize t.csize a b (omega arith)
    ∙ ap (λ (x : ℕ). bit_or (bit_and a t.csize) x) (bit_and-apart t.csize b h)
    ∙ bit_or-zero (bit_and a t.csize)

pub bit_and-with_parity :
    (t : Termios) (p : SerialParity) (tty : Tty)
    → flag_set t.csize (parity_bits t p) ≡ false
    → bit_and (with_parity t p tty).c_cflag t.csize ≡ bit_and tty.c_cflag t.csize
bit_and-with_parity t parity_none tty h = refl
bit_and-with_parity t parity_even tty h = bit_and-joined t tty.c_cflag t.parenb h
bit_and-with_parity t parity_odd tty h = bit_and-joined t tty.c_cflag (bit_or t.parenb t.parodd) h
