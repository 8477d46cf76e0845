-- ===== src/Modbus/Funcs/Examples.antt =====
-- The slave of src/demo/modbus_slave_test.c: its callbacks return MB_ENOERR and store nothing. The
-- state of the application is the number of calls.
use kongjaexpress.Prelude.{ℕ, suc, ◌≡◌, refl, List, [], ◌∷◌, ◌++◌, arith, replicate, inr}
use kongjaexpress.Prelude.Bytes.{word16}
use kongjaexpress.Modbus.Common.{SlaveCallbacks, Reply, enoerr}
use kongjaexpress.Modbus.Funcs.{Pdu, conclude}
use kongjaexpress.Modbus.Funcs.Dispatch.{dispatch, modbus_rtu_handler_request_rx}
use kongjaexpress.Modbus.Funcs.Read.{bit_bytes, read_coils}
use kongjaexpress.Modbus.Funcs.Bounds.{Fits, request_rx-Fits}
use kongjaexpress.Modbus.Funcs.Refusal.{request_rx-untouched}

abbrev nothing_stored : List ℕ → ℕ → Reply ℕ
nothing_stored m calls = record { status = enoerr; memory = m; dev = suc calls }

abbrev pub demo_slave : SlaveCallbacks ℕ
demo_slave = record {
  input_regs_cb = λ addr reg n m d. nothing_stored m d;
  holding_regs_cb = λ addr reg n mode m d. nothing_stored m d;
  coil_cb = λ addr reg n mode m d. nothing_stored m d;
  discrete_cb = λ addr reg n m d. nothing_stored m d;
  input_regs-Stores = λ addr reg n m d. (refl, λ b. b);
  holding_regs-Stores = λ addr reg n mode m d. (refl, λ b. b);
  coil-Stores = λ addr reg n mode m d. (refl, λ b. b);
  discrete-Stores = λ addr reg n m d. (refl, λ b. b);
}

abbrev request : List ℕ → Pdu ℕ
request bytes = record { frame = bytes ++ replicate 248 0; len = 5; dev = 0 }

-- coils 19 to 28
abbrev ten_coils : Pdu ℕ
ten_coils = request (1 ∷ 0 ∷ 19 ∷ 0 ∷ 10 ∷ [])

-- 2000 coils
abbrev pub most_coils : Pdu ℕ
most_coils = request (1 ∷ 0 ∷ 0 ∷ 7 ∷ 208 ∷ [])

ten_coils-Fits : Fits ten_coils
ten_coils-Fits = record { room = omega arith; bytes = ground arith; short = omega arith }

pub most_coils-Fits : Fits most_coils
most_coils-Fits = record { room = omega arith; bytes = ground arith; short = omega arith }

request_rx-Fits_example : Fits (modbus_rtu_handler_request_rx demo_slave 1 ten_coils).pdu
request_rx-Fits_example = request_rx-Fits demo_slave 1 ten_coils ten_coils-Fits

-- The largest quantity that the protocol allows is refused.
request_rx-untouched_example : (modbus_rtu_handler_request_rx demo_slave 1 most_coils).pdu.dev ≡ 0
unfolding modbus_rtu_handler_request_rx dispatch read_coils conclude word16 bit_bytes
request_rx-untouched_example =
    request_rx-untouched demo_slave 1 most_coils most_coils-Fits refl (inr refl)
