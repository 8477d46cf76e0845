-- ===== src/Modbus/BitFields/Examples.antt =====
-- Bits of arrays of two and three octets.
use kongjaexpress.Prelude.{
  ℕ, ◌-◌, ◌+◌, ◌≡◌, refl, List, [], ◌∷◌, leb, ltb, ◌&&◌, if◌then◌else◌, arith,
}
use kongjaexpress.Prelude.Digits.{bit}
use kongjaexpress.Modbus.BitFields.{set_bits, get_bits, word_at}
use kongjaexpress.Modbus.BitFields.Words.{bit_at}
use kongjaexpress.Modbus.BitFields.Contents.{set_bits-bit_at}

abbrev octets : List ℕ
octets = 0xff ∷ 0x00 ∷ 0xff ∷ []

-- five bits from bit 6, over the bound of two octets
across : set_bits octets 6 5 0x0a ≡ 0xbf ∷ 0x02 ∷ 0xff ∷ []
unfolding set_bits word_at
across = refl

read_back : get_bits (0xbf ∷ 0x02 ∷ 0xff ∷ []) 6 5 ≡ 0x0a
unfolding get_bits word_at
read_back = refl

-- A value that does not fit changes the bits above the field.
wide_value : set_bits (0 ∷ 0 ∷ []) 0 1 3 ≡ 3 ∷ 0 ∷ []
unfolding set_bits word_at
wide_value = refl

set_bits-bit_at_example :
    bit_at (set_bits octets 6 5 0x0a) 9
    ≡ (if leb 6 9 && ltb 9 (6 + 5) then bit (9 - 6) 0x0a else bit_at octets 9)
set_bits-bit_at_example =
    set_bits-bit_at octets 6 5 0x0a (omega arith, (omega arith, (omega arith, tt))) (omega arith)
      (omega arith) (omega arith) 9
