-- ===== src/Modbus/Crc/Reference.antt =====
-- The table-driven CRC is the bit by bit CRC-16 with the reflected polynomial 0xA001.
use Prim.Native.Nat.{bit_xor}
use native.Mathlib.Nat.{pow-suc}
use kongjaexpress.Prelude.{
  ℕ, zero, suc, ◌+◌, ◌*◌, ◌/◌, ◌%◌, ◌^◌, ◌<◌, ◌≡◌, refl, ap, ◌∙◌, sym, arith, true, List, [], ◌∷◌,
  ◌==◌, ltb, ◌&&◌, if◌then◌else◌, take, get_or, Bool, ◌≡⟨◌⟩◌, ◌∎,
}
use kongjaexpress.Prelude.Bits.{
  bit_xor_assoc, bit_xor_comm, bit_xor-div-mod, bit_xor-lt, bit_xor_fields, bit_or_fields,
}
use kongjaexpress.Prelude.Bytes.{Bytes, all_below, all_below_sound}
use kongjaexpress.Modbus.Crc.{
  Crc, fresh, auc_crc_hi, auc_crc_lo, update, update_all, modbus_calc_crc,
}

-- one bit: shift right, and subtract the polynomial if a one falls out
pub shift_bit : ℕ → ℕ
shift_bit c = if c % 2 == 1 then bit_xor (c / 2) 0xa001 else c / 2

pub shift_bits : ℕ → ℕ → ℕ
shift_bits zero c = c
shift_bits (suc k) c = shift_bits k (shift_bit c)

-- the remainder after each byte in turn
pub crc16 : ℕ → List ℕ → ℕ
crc16 c [] = c
crc16 c (x ∷ xs) = crc16 (shift_bits 8 (bit_xor c x)) xs

shift_bit-bit_xor : (a b : ℕ) → shift_bit (bit_xor a (b * 2)) ≡ bit_xor (shift_bit a) b
unfolding shift_bit
shift_bit-bit_xor a b = ground (
  arith,
  bit_xor-div-mod a (b * 2),
  halved,
  bit_xor_assoc (a / 2) b 0xa001,
  bit_xor_assoc (a / 2) 0xa001 b,
  bit_xor_comm b 0xa001,
)
  where
    halved : b * 2 / 2 ≡ b
    halved = omega arith

-- bits that are still to come are not touched
shift_bits-bit_xor : (k a b : ℕ) → shift_bits k (bit_xor a (b * 2 ^ k)) ≡ bit_xor (shift_bits k a) b
unfolding shift_bits
shift_bits-bit_xor zero a b = ap (λ (t : ℕ). bit_xor a t) (omega arith)
shift_bits-bit_xor (suc k) a b =
    ap (λ (t : ℕ). shift_bits k (shift_bit (bit_xor a t))) split
    ∙ ap (shift_bits k) (shift_bit-bit_xor a (b * 2 ^ k))
    ∙ shift_bits-bit_xor k (shift_bit a) b
  where
    split : b * 2 ^ suc k ≡ b * 2 ^ k * 2
    split = omega (arith, ap (λ (t : ℕ). b * t) (pow-suc 2 k))

-- the entries of the tables, one by one
entry_check : ℕ → Bool
entry_check i =
    shift_bits 8 i == get_or auc_crc_lo i 0 * 256 + get_or auc_crc_hi i 0
    && ltb (get_or auc_crc_lo i 0) 256
    && ltb (get_or auc_crc_hi i 0) 256

entries_checked : all_below 256 entry_check ≡ true
unfolding entry_check all_below shift_bits shift_bit auc_crc_lo auc_crc_hi
entries_checked = refl

table_entry :
    (i : ℕ)
    → i < 256
    → (shift_bits 8 i ≡ get_or auc_crc_lo i 0 * 256 + get_or auc_crc_hi i 0)
      × (get_or auc_crc_lo i 0 < 256)
      × (get_or auc_crc_hi i 0 < 256)
unfolding entry_check
table_entry i h = ground (arith, all_below_sound 256 entry_check i entries_checked h)

-- the register as a number
abbrev pub value : Crc → ℕ
value c = c.hi * 256 + c.lo

abbrev pub IsCrc : Crc → Type 0
IsCrc c = (c.hi < 256) × (c.lo < 256)

pub update-IsCrc : (c : Crc) (x : ℕ) → IsCrc c → x < 256 → IsCrc (update c x)
unfolding update
update-IsCrc c x h b =
    let entry = table_entry (bit_xor c.lo x) (bit_xor-lt 8 c.lo x h.1 b) in
    (entry.1, bit_xor-lt 8 c.hi (get_or auc_crc_hi (bit_xor c.lo x) 0) h.0 entry.2)

-- One look into the tables does eight bits.
update-value :
    (c : Crc) (x : ℕ) → IsCrc c → x < 256 → value (update c x) ≡ shift_bits 8 (bit_xor (value c) x)
unfolding update
update-value c x h b =
    let index = bit_xor c.lo x in
    let entry = table_entry index (bit_xor-lt 8 c.lo x h.1 b) in
    let t = get_or auc_crc_lo index 0 in
    let u = get_or auc_crc_hi index 0 in
    sym (
      shift_bits 8 (bit_xor (c.hi * 256 + c.lo) x)
      ≡⟨ ap (λ (n : ℕ). shift_bits 8 (bit_xor n x)) (sym (bit_xor_fields 8 c.lo c.hi h.1)) ⟩
        shift_bits 8 (bit_xor (bit_xor c.lo (c.hi * 2 ^ 8)) x)
      ≡⟨ ap (shift_bits 8) (swap_last c.lo (c.hi * 2 ^ 8) x) ⟩
        shift_bits 8 (bit_xor index (c.hi * 2 ^ 8))
      ≡⟨ shift_bits-bit_xor 8 index c.hi ⟩ bit_xor (shift_bits 8 index) c.hi
      ≡⟨ ap (λ (n : ℕ). bit_xor n c.hi) (entry.0 ∙ sym (bit_xor_fields 8 u t entry.2)) ⟩
        bit_xor (bit_xor u (t * 2 ^ 8)) c.hi
      ≡⟨ swap_last u (t * 2 ^ 8) c.hi ⟩ bit_xor (bit_xor u c.hi) (t * 2 ^ 8)
      ≡⟨ ap (λ (n : ℕ). bit_xor n (t * 2 ^ 8)) (bit_xor_comm u c.hi) ⟩
        bit_xor (bit_xor c.hi u) (t * 2 ^ 8)
      ≡⟨ bit_xor_fields 8 (bit_xor c.hi u) t (bit_xor-lt 8 c.hi u h.0 entry.2) ⟩
        t * 256 + bit_xor c.hi u ∎)
  where
    swap_last : (a b c : ℕ) → bit_xor (bit_xor a b) c ≡ bit_xor (bit_xor a c) b
    swap_last a b c =
        bit_xor_assoc a b c ∙ ap (bit_xor a) (bit_xor_comm b c) ∙ sym (bit_xor_assoc a c b)

pub update_all-value :
    (xs : List ℕ) (c : Crc)
    → Bytes xs
    → IsCrc c
    → IsCrc (update_all c xs) × (value (update_all c xs) ≡ crc16 (value c) xs)
unfolding update_all crc16
update_all-value [] c b h = (h, refl)
update_all-value (x ∷ xs) c b h =
    let rest = update_all-value xs (update c x) b.1 (update-IsCrc c x h b.0) in
    (rest.0, rest.1 ∙ ap (λ (n : ℕ). crc16 n xs) (update-value c x h b.0))

-- Over bytes, `modbus_calc_crc` is the bitwise CRC-16 of the first `len` bytes, begun at 0xffff.
pub calc_crc-eq-crc16 :
    (frame : List ℕ) (len : ℕ)
    → Bytes (take len frame)
    → modbus_calc_crc frame len ≡ crc16 0xffff (take len frame)
unfolding modbus_calc_crc
calc_crc-eq-crc16 frame len b =
    let all = update_all-value (take len frame) fresh b (omega arith) in
    bit_or_fields 8 (update_all fresh (take len frame)).lo (update_all fresh (take len frame)).hi
      all.0.1
    ∙ all.1
