-- ===== src/Modbus/Crc/Detect.antt =====
-- What the CRC check of a receiver accepts and refuses.
use Prim.Native.Nat.{bit_xor}
use kongjaexpress.Prelude.{
  ℕ, suc, ◌+◌, ◌/◌, ◌%◌, ◌<◌, ◌≡◌, ◌≢◌, refl, ap, ap₂, append-nil, ◌∙◌, sym, arith, Bool, true,
  List, [], ◌∷◌, ◌++◌, ◌==◌, ==_iff, if◌then◌else◌, length, length-append, take-length-append,
  take-add-append, get_or,
}
use kongjaexpress.Prelude.Bits.{
  bit_xor_self, bit_xor_cancel, bit_xor_comm, bit_xor-lt, bit_or_fields, zero-bit_xor,
}
use kongjaexpress.Prelude.Bytes.{Bytes, All-append, all_below, all_below_sound}
use kongjaexpress.Modbus.Crc.{
  Crc, fresh, auc_crc_hi, auc_crc_lo, update, update_all, modbus_calc_crc,
}
use kongjaexpress.Modbus.Crc.Reference.{IsCrc, value, update-IsCrc, update_all-value}

update_all-append :
    (xs ys : List ℕ) (c : Crc) → update_all c (xs ++ ys) ≡ update_all (update_all c xs) ys
unfolding update_all
update_all-append [] ys c = refl
update_all-append (x ∷ xs) ys c = update_all-append xs ys (update c x)

abbrev pub final : List ℕ → Crc
final xs = update_all fresh xs

-- the CRC of a list at the start of a buffer
pub calc_crc-value :
    (xs rest : List ℕ) → Bytes xs → modbus_calc_crc (xs ++ rest) (length xs) ≡ value (final xs)
unfolding modbus_calc_crc
calc_crc-value xs rest b =
    let done = (update_all-value xs fresh b (omega arith)).0 in
    rw take-length-append (bit_or_fields 8 (final xs).lo (final xs).hi done.1)

first_entries : (get_or auc_crc_hi 0 0 ≡ 0) × (get_or auc_crc_lo 0 0 ≡ 0)
unfolding auc_crc_hi auc_crc_lo
first_entries = (refl, refl)

-- A byte that equals the low byte of the register shifts the register by eight places.
update_self : (c : Crc) → update c c.lo ≡ record { hi = 0; lo = c.hi }
unfolding update
update_self c =
    rw (bit_xor_self, first_entries.0, first_entries.1, bit_xor_comm c.hi 0, zero-bit_xor)

update_twice : (c : Crc) → update (update c c.lo) c.hi ≡ record { hi = 0; lo = 0 }
update_twice c = rw update_self (update_self (record { hi = 0; lo = c.hi }))

pub crc_all : (xs : List ℕ) → Bytes xs → modbus_calc_crc xs (length xs) ≡ value (final xs)
crc_all xs b = rw append-nil at (calc_crc-value xs [] b)

-- `(uint8_t)(crc & 0xff)` and `(uint8_t)(crc >> 8)`, as every sender appends them
unfoldable pub trailer : List ℕ → List ℕ
trailer xs = let crc = modbus_calc_crc xs (length xs) in crc % 256 ∷ crc / 256 ∷ []

trailer-final : (xs : List ℕ) → Bytes xs → trailer xs ≡ (final xs).lo ∷ (final xs).hi ∷ []
unfolding trailer
trailer-final xs b =
    let done = (update_all-value xs fresh b (omega arith)).0 in
    ap₂ (λ (l h : ℕ). l ∷ h ∷ []) (omega (arith, crc_all xs b)) (omega (arith, crc_all xs b))

pub trailer-Bytes : (xs : List ℕ) → Bytes xs → Bytes (trailer xs)
unfolding trailer
trailer-Bytes xs b =
    (omega arith, (omega (arith, crc_all xs b, (update_all-value xs fresh b (omega arith)).0), tt))

-- A frame of bytes followed by its CRC, low byte first, has the CRC 0: a receiver takes it.
pub crc-trailer :
    (xs rest : List ℕ) → Bytes xs → modbus_calc_crc (xs ++ (trailer xs ++ rest)) (length xs + 2) ≡ 0
unfolding modbus_calc_crc update_all
crc-trailer xs rest b = rw (trailer-final xs b, take-add-append, update_all-append, update_twice)

pub trailer-accepted :
    (xs : List ℕ) → Bytes xs → modbus_calc_crc (xs ++ trailer xs) (length (xs ++ trailer xs)) ≡ 0
unfolding trailer
trailer-accepted xs b =
    ap (λ (n : ℕ). modbus_calc_crc (xs ++ trailer xs) n) (length-append xs (trailer xs))
    ∙ ap (λ (t : List ℕ). modbus_calc_crc (xs ++ t) (length xs + 2)) (sym (append-nil (trailer xs)))
    ∙ crc-trailer xs [] b

-- the place of a value in a table
position : ℕ → List ℕ → ℕ
position v [] = 0
position v (x ∷ xs) = let rest = position v xs in if x == v then 0 else suc rest

position_check : ℕ → Bool
position_check i = position (get_or auc_crc_lo i 0) auc_crc_lo == i

positions_checked : all_below 256 position_check ≡ true
unfolding position_check position all_below auc_crc_lo
positions_checked = refl

-- No value stands twice in the low table.
lo_injective : (i j : ℕ) → i < 256 → j < 256 → get_or auc_crc_lo i 0 ≡ get_or auc_crc_lo j 0 → i ≡ j
unfolding position_check
lo_injective i j h k e =
    sym ((==_iff _ i).0 (all_below_sound 256 position_check i positions_checked h))
    ∙ ap (λ (v : ℕ). position v auc_crc_lo) e
    ∙ (==_iff _ j).0 (all_below_sound 256 position_check j positions_checked k)

bit_xor_injective : (a b c : ℕ) → bit_xor a c ≡ bit_xor b c → a ≡ b
bit_xor_injective a b c e =
    sym (bit_xor_cancel a c) ∙ ap (λ (n : ℕ). bit_xor n c) e ∙ bit_xor_cancel b c

-- From one register, different bytes lead to different registers.
update_byte_injective :
    (c : Crc) (x y : ℕ) → IsCrc c → x < 256 → y < 256 → update c x ≡ update c y → x ≡ y
unfolding update
update_byte_injective c x y h b d e = bit_xor_injective x y c.lo (
    bit_xor_comm x c.lo
    ∙ lo_injective (bit_xor c.lo x) (bit_xor c.lo y) (bit_xor-lt 8 c.lo x h.1 b)
        (bit_xor-lt 8 c.lo y h.1 d) (ap (λ r. r.hi) e)
    ∙ bit_xor_comm c.lo y)

-- By one byte, different registers lead to different registers.
update_injective :
    (c d : Crc) (x : ℕ) → IsCrc c → IsCrc d → x < 256 → update c x ≡ update d x → c ≡ d
unfolding update
update_injective c d x h k b e =
    let same_lo : c.lo ≡ d.lo = bit_xor_injective c.lo d.lo x (
      lo_injective (bit_xor c.lo x) (bit_xor d.lo x) (bit_xor-lt 8 c.lo x h.1 b)
        (bit_xor-lt 8 d.lo x k.1 b) (ap (λ r. r.hi) e)) in
    let same_hi : c.hi ≡ d.hi = bit_xor_injective c.hi d.hi (get_or auc_crc_hi (bit_xor c.lo x) 0) (
      ap (λ r. r.lo) e
      ∙ ap (λ (n : ℕ). bit_xor d.hi (get_or auc_crc_hi (bit_xor n x) 0)) (sym same_lo)) in
    λ i. record { hi = same_hi i; lo = same_lo i }

update_all_injective :
    (xs : List ℕ) (c d : Crc)
    → Bytes xs
    → IsCrc c
    → IsCrc d
    → update_all c xs ≡ update_all d xs
    → c ≡ d
unfolding update_all
update_all_injective [] c d b h k e = e
update_all_injective (x ∷ xs) c d b h k e = update_injective c d x h k b.0 (
    update_all_injective xs (update c x) (update d x) b.1 (update-IsCrc c x h b.0)
      (update-IsCrc d x k b.0) e)

IsCrc-around :
    (xs ys : List ℕ) (x : ℕ)
    → Bytes xs
    → Bytes ys
    → x < 256
    → let c = update_all (update (final xs) x) ys in
      (modbus_calc_crc (xs ++ x ∷ ys) (length xs + suc (length ys)) ≡ value c) × IsCrc c
unfolding update_all
IsCrc-around xs ys x b d hx =
    let start = (update_all-value xs fresh b (omega arith)).0 in
    (
      rw (← length-append xs (x ∷ ys), crc_all (xs ++ x ∷ ys) (All-append _ xs (x ∷ ys) b (hx, d)))
          (ap value (update_all-append xs (x ∷ ys) fresh)),
      (update_all-value ys (update (final xs) x) d (update-IsCrc (final xs) x start hx)).0,
    )

value_injective : (c d : Crc) → IsCrc c → IsCrc d → value c ≡ value d → c ≡ d
value_injective c d h k e =
    let same_hi : c.hi ≡ d.hi = omega arith in
    let same_lo : c.lo ≡ d.lo = omega arith in λ i. record { hi = same_hi i; lo = same_lo i }

-- Two frames of bytes that differ in exactly one byte have different CRCs: a receiver detects
-- every corruption of a single byte, up to eight bits of it.
pub crc_detects :
    (xs ys : List ℕ) (x y : ℕ)
    → Bytes xs
    → Bytes ys
    → x < 256
    → y < 256
    → x ≢ y
    → let n = length xs + suc (length ys) in
      modbus_calc_crc (xs ++ x ∷ ys) n ≢ modbus_calc_crc (xs ++ y ∷ ys) n
crc_detects xs ys x y b d hx hy ne e =
    let (crc_x, good_x) = IsCrc-around xs ys x b d hx in
    let (crc_y, good_y) = IsCrc-around xs ys y b d hy in
    let start = (update_all-value xs fresh b (omega arith)).0 in
    let ends = value_injective _ _ good_x good_y (sym crc_x ∙ e ∙ crc_y) in
    ne (
      update_byte_injective (final xs) x y start hx hy (
        update_all_injective ys _ _ d (update-IsCrc (final xs) x start hx)
          (update-IsCrc (final xs) y start hy) ends))
