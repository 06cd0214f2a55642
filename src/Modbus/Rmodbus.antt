-- ===== src/Modbus/Rmodbus.antt =====
-- The rmodbus package, as what crates/ferredge-proto-modbus/src/codec.rs and convert.rs call of it.
use ferredge.Prelude.{ℕ, Bool, String, List, Result}
use ferredge.Prelude.Int.{ℤ}
use ferredge.Modbus.Types.{ModbusProto}

-- The kinds that the source names; any other is known by its `Debug` text.
pub data ErrorKind : Type 0 where
  oob frame_broken frame_crc_error utf8_error : ErrorKind
  other : String → ErrorKind

-- `Request` is `client::ModbusRequest`: each `generate_*` updates it and fills a frame, each
-- `parse_*` reads a response in its light.
pub record Rmodbus : Type 1 where
  pub Request : Type 0
  pub new : ℕ → ModbusProto → Request
  pub generate_get_coils : Request → ℕ → ℕ → Result (Request × List ℕ) ErrorKind
  pub generate_get_discretes : Request → ℕ → ℕ → Result (Request × List ℕ) ErrorKind
  pub generate_get_holdings : Request → ℕ → ℕ → Result (Request × List ℕ) ErrorKind
  pub generate_get_inputs : Request → ℕ → ℕ → Result (Request × List ℕ) ErrorKind
  pub generate_set_coil : Request → ℕ → Bool → Result (Request × List ℕ) ErrorKind
  pub generate_set_holding : Request → ℕ → ℕ → Result (Request × List ℕ) ErrorKind
  pub generate_set_coils_bulk : Request → ℕ → List ℕ → Result (Request × List ℕ) ErrorKind
  pub generate_set_holdings_bulk : Request → ℕ → List ℕ → Result (Request × List ℕ) ErrorKind
  pub generate_set_holdings_bulk_from_slice :
      Request → ℕ → List ℕ → Result (Request × List ℕ) ErrorKind
  pub generate_set_holdings_string : Request → ℕ → String → Result (Request × List ℕ) ErrorKind
  pub generate_ascii_frame : List ℕ → Result (List ℕ) ErrorKind
  pub debug : ErrorKind → String
  pub parse_ok : Request → List ℕ → Result (Unit {0}) ErrorKind
  pub parse_bool_u8 : Request → List ℕ → Result (List ℕ) ErrorKind
  pub parse_u16 : Request → List ℕ → Result (List ℕ) ErrorKind
  pub parse_i16 : Request → List ℕ → Result (List ℤ) ErrorKind
  pub parse_u32_be : Request → List ℕ → Result (List ℕ) ErrorKind
  pub parse_u32_le : Request → List ℕ → Result (List ℕ) ErrorKind
  pub parse_i32_be : Request → List ℕ → Result (List ℤ) ErrorKind
  pub parse_i32_le : Request → List ℕ → Result (List ℤ) ErrorKind
  pub parse_f32_be : Request → List ℕ → Result (List ℕ) ErrorKind
  pub parse_f32_le : Request → List ℕ → Result (List ℕ) ErrorKind
