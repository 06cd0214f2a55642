-- ===== src/Modbus/Convert.antt =====
-- crates/ferredge-proto-modbus/src/convert.rs: requests from planned register accesses, and
-- codec.rs: `make_parser`, `encode_wire_frame`.
pub mod Build
pub mod Seeds
pub mod Seeded
pub mod Accepted
use ferredge.Prelude.{
  ℕ, Bool, true, false, String, Option, none, some, List, [], ◌∷◌, map, Result, ok, err, ◌>>=◌,
  ◌>>◌, map_ok, map_err, ok_or, lookup, str_append, ◌==◌, if◌then◌else◌,
}
use ferredge.Prelude.Int.{ℤ, pos, negsuc}
use ferredge.Core.Payload.{PayloadValue}
use ferredge.Core.Device.{DeviceResource}
use ferredge.Bridge.Message.{RegisterAccessAction}
use ferredge.Modbus.Types.{
  ModbusProto, ModbusRegisterKind, ModbusValueCodec, ModbusResourceAttributes, ModbusClientOptions,
  ModbusDevice, ModbusParserSeed, ModbusResponseDecoder, ModbusValue, ModbusCommandConversionError,
  unknown_resource, invalid_resource, invalid_payload, unsupported_write, invalid_bridge_message,
  ModbusRequest, ModbusNativePlan, options, proto,
}
use ferredge.Modbus.Rmodbus.{
  Rmodbus, ErrorKind, oob, frame_broken, frame_crc_error, utf8_error, other,
}
use ferredge.Modbus.Value.{modbus_value_from_payload, words_from_payload}

abbrev default_quantity : ModbusValueCodec → Result ℕ ModbusCommandConversionError
default_quantity ModbusValueCodec.bool = ok 1
default_quantity ModbusValueCodec.bits = ok 1
default_quantity ModbusValueCodec.u16 = ok 1
default_quantity ModbusValueCodec.i16 = ok 1
default_quantity ModbusValueCodec.bytes =
    err (invalid_resource "quantity is required for raw bytes and string codecs")
default_quantity ModbusValueCodec.utf8_string =
    err (invalid_resource "quantity is required for raw bytes and string codecs")
default_quantity _ = ok 2

unfoldable pub quantity_for_read : ModbusResourceAttributes → Result ℕ ModbusCommandConversionError
quantity_for_read attributes = elim attributes.quantity [
  | some quantity ↦
      if quantity == 0
      then err (invalid_resource "quantity must be greater than zero")
      else ok quantity
  | none ↦ default_quantity attributes.codec
]

abbrev pub codec_decoder : ModbusValueCodec → ℕ → ModbusResponseDecoder
codec_decoder ModbusValueCodec.bool quantity = ModbusResponseDecoder.bool
codec_decoder ModbusValueCodec.bits quantity = ModbusResponseDecoder.bits quantity
codec_decoder ModbusValueCodec.u16 quantity = ModbusResponseDecoder.u16
codec_decoder ModbusValueCodec.i16 quantity = ModbusResponseDecoder.i16
codec_decoder ModbusValueCodec.u32_be quantity = ModbusResponseDecoder.u32_be
codec_decoder ModbusValueCodec.u32_le quantity = ModbusResponseDecoder.u32_le
codec_decoder ModbusValueCodec.i32_be quantity = ModbusResponseDecoder.i32_be
codec_decoder ModbusValueCodec.i32_le quantity = ModbusResponseDecoder.i32_le
codec_decoder ModbusValueCodec.f32_be quantity = ModbusResponseDecoder.f32_be
codec_decoder ModbusValueCodec.f32_le quantity = ModbusResponseDecoder.f32_le
codec_decoder ModbusValueCodec.bytes quantity = ModbusResponseDecoder.bytes
codec_decoder ModbusValueCodec.utf8_string quantity = ModbusResponseDecoder.utf8_string

unfoldable pub decoder_for_codec : ModbusResourceAttributes → ℕ → ModbusResponseDecoder
decoder_for_codec attributes quantity = codec_decoder attributes.codec quantity

unfoldable pub validate_bit_codec :
    ModbusResourceAttributes → Result (Unit {0}) ModbusCommandConversionError
validate_bit_codec attributes = elim attributes.codec [
  | ModbusValueCodec.bool ↦ ok tt
  | ModbusValueCodec.bits ↦ ok tt
  | _ ↦ err (invalid_resource "bit resources require Bool or Bits codec")
]

unfoldable pub validate_register_codec :
    ModbusResourceAttributes → Result (Unit {0}) ModbusCommandConversionError
validate_register_codec attributes = elim attributes.codec [
  | ModbusValueCodec.bool ↦
      err (invalid_resource "register resources cannot use Bool or Bits codec")
  | ModbusValueCodec.bits ↦
      err (invalid_resource "register resources cannot use Bool or Bits codec")
  | _ ↦ ok tt
]

abbrev build_error_text : ErrorKind → String
build_error_text oob = "out of bounds"
build_error_text frame_broken = "frame broken"
build_error_text frame_crc_error = "frame crc error"
build_error_text utf8_error = "utf8 error"
build_error_text (other _) = "rmodbus error"

abbrev pub map_rmodbus_build_error : ErrorKind → ModbusCommandConversionError
map_rmodbus_build_error error = invalid_payload (build_error_text error)

abbrev pub decode_bool : ModbusValue → Result Bool ModbusCommandConversionError
decode_bool (ModbusValue.bool value) = ok value
decode_bool _ = err (invalid_payload "bool payload must be a boolean")

abbrev flag_byte : Bool → ℕ
flag_byte true = 1
flag_byte false = 0

abbrev pub decode_bits : ModbusValue → Result (List ℕ) ModbusCommandConversionError
decode_bits (ModbusValue.bits values) = ok (map flag_byte values)
decode_bits _ = err (invalid_payload "bits payload must be a boolean list")

abbrev pub decode_u16 : ModbusValue → Result ℕ ModbusCommandConversionError
decode_u16 (ModbusValue.u16 (value ∷ [])) = ok value
decode_u16 (ModbusValue.i16 (pos value ∷ [])) = ok value
decode_u16 (ModbusValue.i16 (negsuc _ ∷ [])) =
    err (invalid_payload "i16 payload must fit into unsigned u16")
decode_u16 _ = err (invalid_payload "u16 payload must be a single 16-bit value")

abbrev pub decode_bytes : ModbusValue → Result (List ℕ) ModbusCommandConversionError
decode_bytes (ModbusValue.bytes value) = ok value
decode_bytes _ = err (invalid_payload "bytes payload must be binary data")

abbrev pub decode_string : ModbusValue → Result String ModbusCommandConversionError
decode_string (ModbusValue.utf8_string value) = ok value
decode_string _ = err (invalid_payload "string payload must be utf8 text")

module _ (rm : Rmodbus) where
  -- Each arm of `make_parser`; the requests are built by the same calls.
  unfoldable pub generate : rm.Request → ModbusParserSeed → Result (rm.Request × List ℕ) ErrorKind
  generate request (ModbusParserSeed.read_coils address quantity) =
      rm.generate_get_coils request address quantity
  generate request (ModbusParserSeed.read_discretes address quantity) =
      rm.generate_get_discretes request address quantity
  generate request (ModbusParserSeed.read_holdings address quantity) =
      rm.generate_get_holdings request address quantity
  generate request (ModbusParserSeed.read_inputs address quantity) =
      rm.generate_get_inputs request address quantity
  generate request (ModbusParserSeed.write_single_coil address value) =
      rm.generate_set_coil request address value
  generate request (ModbusParserSeed.write_single_holding address value) =
      rm.generate_set_holding request address value
  generate request (ModbusParserSeed.write_multiple_coils address values) =
      rm.generate_set_coils_bulk request address values
  generate request (ModbusParserSeed.write_multiple_holdings address values) =
      rm.generate_set_holdings_bulk request address values
  generate request (ModbusParserSeed.write_multiple_holdings_bytes address values) =
      rm.generate_set_holdings_bulk_from_slice request address values
  generate request (ModbusParserSeed.write_string address value) =
      rm.generate_set_holdings_string request address value

  unfoldable pub encode_wire_frame : ModbusProto → List ℕ → Result (List ℕ) ErrorKind
  encode_wire_frame ModbusProto.ascii binary_frame = rm.generate_ascii_frame binary_frame
  encode_wire_frame _ binary_frame = ok binary_frame
