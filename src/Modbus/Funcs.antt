-- ===== src/Modbus/Funcs.antt =====
-- src/protocols/modbus/modbus_func_*.c and modbus_rtu_request_handler.c: the slave's handlers of
-- the Modbus functions, and the choice among them. They are built without the option
-- MODBUS_USE_REGISTER_NUMBER, which would add one to every register address.
pub mod Read
pub mod Write
pub mod Dispatch
pub mod Bounds
pub mod Refusal
pub mod Response
pub mod Length
pub mod Size
pub mod Examples
use kongjaexpress.Prelude.{ℕ, ◌+◌, List, ◌++◌, Bool, get_or, take, drop, if◌then◌else◌}
use kongjaexpress.Prelude.Bytes.{word16}
use kongjaexpress.Modbus.Common.{
  MbException, ex_none, MbErrorCode, is_enoerr, prve_mb_error_to_exception, Reply,
}

-- The buffer from the PDU on, the length `*usLen`, and the state of the application.
pub record Pdu (D : Type 0) : Type 0 where
  pub frame : List ℕ
  pub len : ℕ
  pub dev : D

-- what a handler returns and leaves
pub record Handled (D : Type 0) : Type 0 where
  pub status : MbException
  pub pdu : Pdu D

-- `pucFrame[off] << 8 | pucFrame[off + 1]`
abbrev pub word_at : List ℕ → ℕ → ℕ
word_at frame off = word16 (get_or frame off 0) (get_or frame (off + 1) 0)

-- A callback that is handed `&pucFrame[off]`, and the tail of a handler: the status as an
-- exception, and the length of the response only if there is none.
unfoldable pub conclude : {D : Type 0} → List ℕ → ℕ → ℕ → ℕ → (List ℕ → Reply D) → Handled D
conclude frame off failed_len done_len callback =
    let r = callback (drop off frame) in
    record {
      status = if is_enoerr r.status then ex_none else prve_mb_error_to_exception r.status;
      pdu = record {
        frame = take off frame ++ r.memory;
        len = if is_enoerr r.status then done_len else failed_len;
        dev = r.dev;
      };
    }
