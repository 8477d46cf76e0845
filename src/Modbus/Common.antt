-- ===== src/Modbus/Common.antt =====
-- inc/modbus/modbus_common.h, inc/modbus/modbus_slave.h and the conversion of errors in
-- src/protocols/modbus/modbus_util.c: what the master and the slaves share.
use kongjaexpress.Prelude.{ℕ, ◌≡◌, Bool, true, false, List, length}
use kongjaexpress.Prelude.Bytes.{Bytes}

abbrev pub pdu_size_max : ℕ
pdu_size_max = 253

abbrev pub address_broadcast : ℕ
address_broadcast = 0

-- the function codes that the slave serves and the master asks for
abbrev pub func_read_coils : ℕ
func_read_coils = 1

abbrev pub func_read_discrete_inputs : ℕ
func_read_discrete_inputs = 2

abbrev pub func_read_holding_register : ℕ
func_read_holding_register = 3

abbrev pub func_read_input_register : ℕ
func_read_input_register = 4

abbrev pub func_write_single_coil : ℕ
func_write_single_coil = 5

abbrev pub func_write_register : ℕ
func_write_register = 6

abbrev pub func_write_multiple_coils : ℕ
func_write_multiple_coils = 15

abbrev pub func_write_multiple_registers : ℕ
func_write_multiple_registers = 16

abbrev pub func_readwrite_multiple_registers : ℕ
func_readwrite_multiple_registers = 23

abbrev pub func_error : ℕ
func_error = 128

-- `MBException`
pub data MbException : Type 0 where
  ex_none ex_illegal_function ex_illegal_data_address ex_illegal_data_value : MbException
  ex_slave_device_failure ex_acknowledge ex_slave_busy ex_memory_parity_error : MbException
  ex_gateway_path_failed ex_gateway_tgt_failed : MbException

-- the values of the enumeration
abbrev pub exception_code : MbException → ℕ
exception_code ex_none = 0x00
exception_code ex_illegal_function = 0x01
exception_code ex_illegal_data_address = 0x02
exception_code ex_illegal_data_value = 0x03
exception_code ex_slave_device_failure = 0x04
exception_code ex_acknowledge = 0x05
exception_code ex_slave_busy = 0x06
exception_code ex_memory_parity_error = 0x08
exception_code ex_gateway_path_failed = 0x0a
exception_code ex_gateway_tgt_failed = 0x0b

-- `== MB_EX_NONE`
abbrev pub is_none : MbException → Bool
is_none ex_none = true
is_none _ = false

-- `MBErrorCode`
pub data MbErrorCode : Type 0 where
  enoerr enoreg einval eporterr enores eio eillstate etimedout : MbErrorCode

-- `== MB_ENOERR`
abbrev pub is_enoerr : MbErrorCode → Bool
is_enoerr enoerr = true
is_enoerr _ = false

-- `MBRegisterMode`
pub data MbRegisterMode : Type 0 where
  reg_read reg_write : MbRegisterMode

-- `prveMBError2Exception`
unfoldable pub prve_mb_error_to_exception : MbErrorCode → MbException
prve_mb_error_to_exception enoerr = ex_none
prve_mb_error_to_exception enoreg = ex_illegal_data_address
prve_mb_error_to_exception etimedout = ex_slave_busy
prve_mb_error_to_exception _ = ex_slave_device_failure

-- Memory that was written through a pointer: as long as before, and of bytes.
abbrev pub Stores : List ℕ → List ℕ → Type 0
Stores before after = (length after ≡ length before) × (Bytes before → Bytes after)

-- What a callback of the application returns: its status, the memory from its pointer on, and the
-- state `D` of the application.
pub record Reply (D : Type 0) : Type 0 where
  pub status : MbErrorCode
  pub memory : List ℕ
  pub dev : D

-- The four callbacks of `ModbusSlaveCTX`. The memory argument is the buffer from `pucRegBuffer`
-- on. All that is asked of a callback is that it stores bytes in place.
pub record SlaveCallbacks (D : Type 0) : Type 0 where
  pub input_regs_cb : ℕ → ℕ → ℕ → List ℕ → D → Reply D
  pub holding_regs_cb : ℕ → ℕ → ℕ → MbRegisterMode → List ℕ → D → Reply D
  pub coil_cb : ℕ → ℕ → ℕ → MbRegisterMode → List ℕ → D → Reply D
  pub discrete_cb : ℕ → ℕ → ℕ → List ℕ → D → Reply D
  pub input_regs-Stores :
      (addr reg n : ℕ) (m : List ℕ) (d : D) → Stores m (input_regs_cb addr reg n m d).memory
  pub holding_regs-Stores :
      (addr reg n : ℕ) (mode : MbRegisterMode) (m : List ℕ) (d : D)
      → Stores m (holding_regs_cb addr reg n mode m d).memory
  pub coil-Stores :
      (addr reg n : ℕ) (mode : MbRegisterMode) (m : List ℕ) (d : D)
      → Stores m (coil_cb addr reg n mode m d).memory
  pub discrete-Stores :
      (addr reg n : ℕ) (m : List ℕ) (d : D) → Stores m (discrete_cb addr reg n m d).memory

-- the counters of `ModbusSlaveCTX`, each a `uint32_t`
pub record SlaveCtx : Type 0 where
  pub rx_buffer_overflow : ℕ
  pub rx_crc_error : ℕ
  pub rx_frames : ℕ
  pub req_fails : ℕ
  pub my_frames : ℕ
  pub tx_frames : ℕ

abbrev pub mb_slave_ctx_init : SlaveCtx
mb_slave_ctx_init = record {
  rx_buffer_overflow = 0;
  rx_crc_error = 0;
  rx_frames = 0;
  req_fails = 0;
  my_frames = 0;
  tx_frames = 0;
}
