-- ===== src/Modbus/Crc/Examples.antt =====
-- The CRC of short frames.
use kongjaexpress.Prelude.{ℕ, ◌≡◌, ◌≢◌, refl, List, [], ◌∷◌, arith}
use kongjaexpress.Modbus.Crc.{modbus_calc_crc, auc_crc_hi, auc_crc_lo, update, update_all}
use kongjaexpress.Modbus.Crc.Reference.{crc16, calc_crc-eq-crc16}
use kongjaexpress.Modbus.Crc.Detect.{crc_detects}

-- read two holding registers of device 1
abbrev request : List ℕ
request = 1 ∷ 3 ∷ 0 ∷ 0 ∷ 0 ∷ 2 ∷ []

crc_of_request : modbus_calc_crc request 6 ≡ 0x0bc4
unfolding modbus_calc_crc update_all update auc_crc_hi auc_crc_lo
crc_of_request = refl

calc_crc-eq-crc16_example : modbus_calc_crc request 6 ≡ crc16 0xffff request
calc_crc-eq-crc16_example = calc_crc-eq-crc16 request 6 (omega arith)

crc_detects_example : modbus_calc_crc (1 ∷ 3 ∷ 0 ∷ []) 3 ≢ modbus_calc_crc (1 ∷ 131 ∷ 0 ∷ []) 3
crc_detects_example =
    crc_detects (1 ∷ []) (0 ∷ []) 3 131 (omega arith) (omega arith) (omega arith) (omega arith)
      (omega arith)
