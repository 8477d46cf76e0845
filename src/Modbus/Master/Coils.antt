-- ===== src/Modbus/Master/Coils.antt =====
-- The coils of a request, packed in octets.
use Prim.Native.Nat.{bit_or}
use kongjaexpress.Prelude.{
  ℕ, zero, suc, ◌+◌, ◌-◌, ◌*◌, ◌/◌, ◌%◌, ◌^◌, ◌≤◌, ◌<◌, ◌≡◌, refl, ap, ◌∙◌, arith, Bool, true,
  false, List, not, ◌&&◌, ltb, leb, ◌==◌, if◌then◌else◌, get_or,
}
use kongjaexpress.Prelude.Digits.{bit, bit-lt, bit-zero, bit-bit_or, bit-mod, bit_shift_left}
use kongjaexpress.Modbus.BitFields.Words.{bit_at}
use kongjaexpress.Modbus.Master.{coil_bytes, pack_bits, pack_coils}

bit_one : (j : ℕ) → bit j 1 ≡ (if j == 0 then 1 else 0)
unfolding bit
bit_one zero = refl
bit_one (suc j) = ground (arith, bit-zero j)

bit_power : (p j : ℕ) → bit j (2 ^ p) ≡ (if j == p then 1 else 0)
bit_power p j = ground (arith, bit_shift_left p j 1, bit_one (j - p))

-- one coil in its place
bit-put :
    (byte p v j : ℕ)
    → j < 8
    → bit j (if v == 0 then byte else bit_or byte (2 ^ p) % 2 ^ 8)
      ≡ (if not (v == 0) && j == p then 1 else bit j byte)
bit-put byte p v j h = ground (
  arith,
  bit-mod 8 j (bit_or byte (2 ^ p)),
  bit-bit_or j byte (2 ^ p),
  bit_power p j,
  bit-lt j byte,
)

-- a round of the loop, before the end of the coils and behind it
pack_bits_round :
    (rounds p pos nb : ℕ) (values : List ℕ) (byte : ℕ)
    → pos < nb
    → pack_bits (suc rounds) p pos nb values byte
      ≡ pack_bits rounds
          (p + 1)
          (pos + 1)
          nb
          values
          (if get_or values pos 0 == 0 then byte else bit_or byte (2 ^ p) % 2 ^ 8)
unfolding pack_bits
pack_bits_round rounds p pos nb values byte h =
    let more : ltb pos nb ≡ true = ground arith in rw more refl

pack_bits_end :
    (rounds p pos nb : ℕ) (values : List ℕ) (byte : ℕ)
    → nb ≤ pos
    → pack_bits rounds p pos nb values byte ≡ byte
unfolding pack_bits
pack_bits_end zero p pos nb values byte h = refl
pack_bits_end (suc rounds) p pos nb values byte h =
    let done : ltb pos nb ≡ false = ground arith in rw done refl

-- whether the loop with `rounds` rounds left puts coil `k` in bit `j`
abbrev is_put : ℕ → ℕ → ℕ → ℕ → ℕ → ℕ → Bool
is_put rounds p k nb v j = leb p j && ltb j (p + rounds) && ltb k nb && not (v == 0)

round_shift :
    (rounds p pos nb j u v w b : ℕ)
    → pos < nb
    → (p + 1 ≤ j → u ≡ v)
    → (j ≤ p → v ≡ w)
    → (if is_put rounds (p + 1) (pos + 1 + (j - (p + 1))) nb u j
        then 1
        else if not (w == 0) && j == p
        then 1
        else b)
      ≡ (if is_put (suc rounds) p (pos + (j - p)) nb v j then 1 else b)
round_shift rounds p pos nb j u v w b more above below =
    elim (leb (p + 1) j)
        as (λ c.
          leb (p + 1) j ≡ c
          → (if is_put rounds (p + 1) (pos + 1 + (j - (p + 1))) nb u j
              then 1
              else if not (w == 0) && j == p
              then 1
              else b)
            ≡ (if is_put (suc rounds) p (pos + (j - p)) nb v j then 1 else b)) [
              | true ↦ λ e.
                  let far : p + 1 ≤ j = ground arith in
                  let same : u ≡ v = above far in
                  let at : pos + 1 + (j - (p + 1)) ≡ pos + (j - p) = omega arith in
                  rw (same, at) (ground arith)
              | false ↦ λ e.
                  let near : j ≤ p = ground arith in
                  let same : v ≡ w = below near in rw same (ground arith)
            ]
      refl

bit-pack_bits :
    (rounds p pos nb : ℕ) (values : List ℕ) (byte j : ℕ)
    → j < 8
    → bit j (pack_bits rounds p pos nb values byte) ≡ (
        if is_put rounds p (pos + (j - p)) nb (get_or values (pos + (j - p)) 0) j
        then 1
        else bit j byte)
bit-pack_bits zero p pos nb values byte j h =
    let same : pack_bits zero p pos nb values byte ≡ byte = unfold pack_bits in refl in
    rw same (ground arith)
bit-pack_bits (suc rounds) p pos nb values byte j h =
    elim (ltb pos nb)
        as (λ b.
          ltb pos nb ≡ b
          → bit j (pack_bits (suc rounds) p pos nb values byte) ≡ (
              if is_put (suc rounds) p (pos + (j - p)) nb (get_or values (pos + (j - p)) 0) j
              then 1
              else bit j byte)) [
                | true ↦ λ e.
                    rw
                      (
                        pack_bits_round rounds p pos nb values byte (ground arith),
                        bit-pack_bits rounds (p + 1) (pos + 1) nb values
                            (if get_or values pos 0 == 0 then byte else bit_or byte (2 ^ p) % 2 ^ 8)
                            j h,
                        bit-put byte p (get_or values pos 0) j h,
                      )
                      (round_shift rounds p pos nb j (get_or values (pos + 1 + (j - (p + 1))) 0)
                        (get_or values (pos + (j - p)) 0) (get_or values pos 0) (bit j byte)
                        (ground arith) (λ k. ap (λ (q : ℕ). get_or values q 0) (omega arith))
                        (λ k. ap (λ (q : ℕ). get_or values q 0) (omega arith)))
                | false ↦ λ e.
                    rw (pack_bits_end (suc rounds) p pos nb values byte (ground arith))
                      (ground arith)
              ]
      refl

octet-pack_coils :
    (n pos nb : ℕ) (values : List ℕ) (i : ℕ)
    → i < n
    → pos + 8 * i < nb
    → get_or (pack_coils n pos nb values) i 0 ≡ pack_bits 8 0 (pos + 8 * i) nb values 0
unfolding pack_coils
octet-pack_coils zero pos nb values i h k = absurd (omega arith)
octet-pack_coils (suc n) pos nb values zero h k =
    ap (λ (q : ℕ). pack_bits 8 0 q nb values 0) (omega arith)
octet-pack_coils (suc n) pos nb values (suc i) h k =
    let more : ltb (pos + 8) nb ≡ true = ground arith in
    let at : pos + 8 + 8 * i ≡ pos + 8 * suc i = omega arith in
    rw more (
      octet-pack_coils n (pos + 8) nb values i (omega arith) (omega arith)
      ∙ ap (λ (q : ℕ). pack_bits 8 0 q nb values 0) at)

-- The coils of a request as the slave finds them, packed from the lowest bit of the first octet on:
-- bit `i` is set exactly if value `i` is not 0, for at most 2040 coils.
pub bit_at-pack_coils :
    (nb : ℕ) (values : List ℕ) (i : ℕ)
    → nb ≤ 2040
    → i < nb
    → bit_at (pack_coils (coil_bytes nb) 0 nb values) i ≡ (if get_or values i 0 == 0 then 0 else 1)
unfolding bit_at
bit_at-pack_coils nb values i few below =
    let octet : i / 8 < coil_bytes nb = ground arith in
    let at : 0 + 8 * (i / 8) + (i % 8 - 0) ≡ i = omega arith in
    rw
      (
        octet-pack_coils (coil_bytes nb) 0 nb values (i / 8) octet (omega arith),
        bit-pack_bits 8 0 (0 + 8 * (i / 8)) nb values 0 (i % 8) (omega arith),
        bit-zero (i % 8),
        at,
      )
      (ground arith)
