-- ===== src/Modbus/Codec.antt =====
-- crates/ferredge-proto-modbus/src/codec.rs: reading a response, and types.rs: the routed result and
-- the bridge message it becomes.
pub mod Reading
pub mod Outcome
use ferredge.Prelude.{
  ℕ, ◌+◌, Bool, true, false, not, String, Option, none, some, List, [], ◌∷◌, map, Result, ok, err,
  ◌>>=◌, ◌>>◌, map_ok, map_err, ok_or, length, get_elem?, take, drop, ltb, ◌==◌, if◌then◌else◌,
  map_option, ◌or◌, str_append, and_then,
}
use ferredge.Core.Protocol as Protocol
use ferredge.Core.Payload.{PayloadValue}
use ferredge.Core.Route.{Address, Correlation, correlation_as_borrowed}
use ferredge.Core.Command.{Intent, Command, CommandResult, DeliveryState, EndpointRef, RoutedResult}
use ferredge.Bridge.Message.{BridgeMessage}
use ferredge.Bridge.Planner.Outward.{routed_result_to_bridge}
use ferredge.Modbus.Types.{
  ModbusProto, ModbusDevice, ModbusParserSeed, ModbusResponseDecoder, ModbusValue, ModbusResponse,
  ModbusCommandConversionError, invalid_payload, unsupported_intent,
}
use ferredge.Modbus.Rmodbus.{Rmodbus, ErrorKind}
use ferredge.Modbus.Convert.{generate}
use ferredge.Modbus.Value.{payload_value_from_modbus_value}

-- A byte before what is kept of the rest.
abbrev pub keep_byte : ℕ → List ℕ → List ℕ
keep_byte byte [] = if byte == 0 then [] else byte ∷ []
keep_byte byte (kept ∷ more) = byte ∷ kept ∷ more

-- Up to the last byte that is not 0.
unfoldable pub trim_trailing_nuls : List ℕ → List ℕ
trim_trailing_nuls [] = []
trim_trailing_nuls (byte ∷ bytes) = keep_byte byte (trim_trailing_nuls bytes)

abbrev pub count_index : ModbusProto → ℕ
count_index ModbusProto.tcp_udp = 8
count_index _ = 2

-- `data_end` cannot overflow: the count is one byte.
unfoldable pub response_data_slice :
    ModbusProto → List ℕ → Result (List ℕ) ModbusCommandConversionError
response_data_slice proto frame = do
  byte_count ←
      ok_or (get_elem? frame (count_index proto))
        (invalid_payload "response frame shorter than byte count header")
  (if ltb (length frame) (count_index proto + 1 + byte_count)
      then err (invalid_payload "response frame shorter than declared payload")
      else ok (take byte_count (drop (count_index proto + 1) frame)))

abbrev first_flag : List ℕ → Bool
first_flag [] = false
first_flag (value ∷ _) = not (value == 0)

-- `from_utf8` is `core::str::from_utf8` without its error.
module _ (rm : Rmodbus) (from_utf8 : List ℕ → Option String) where
  abbrev pub map_rmodbus_decode_error : ErrorKind → ModbusCommandConversionError
  map_rmodbus_decode_error error = invalid_payload (str_append "rmodbus error: " (rm.debug error))

  unfoldable pub make_parser :
      ModbusProto → ℕ → ModbusParserSeed → Result rm.Request ModbusCommandConversionError
  unfolding generate
  make_parser proto unit_id parser_seed =
      map_ok (λ made. made.0)
        (map_err map_rmodbus_decode_error (generate rm (rm.new unit_id proto) parser_seed))

  abbrev parsed :
      {A : Type 0}
      → (A → ModbusValue)
      → Result A ErrorKind
      → Result ModbusValue ModbusCommandConversionError
  parsed value answer = map_ok value (map_err map_rmodbus_decode_error answer)

  unfoldable pub decode_with :
      rm.Request
      → ModbusProto
      → ModbusResponseDecoder
      → List ℕ
      → Result ModbusValue ModbusCommandConversionError
  unfolding response_data_slice trim_trailing_nuls
  decode_with parser proto ModbusResponseDecoder.ack frame =
      parsed (λ _. ModbusValue.ack) (rm.parse_ok parser frame)
  decode_with parser proto ModbusResponseDecoder.bool frame =
      parsed (λ values. ModbusValue.bool (first_flag values)) (rm.parse_bool_u8 parser frame)
  decode_with parser proto (ModbusResponseDecoder.bits _) frame =
      parsed (λ values. ModbusValue.bits (map (λ value. not (value == 0)) values))
        (rm.parse_bool_u8 parser frame)
  decode_with parser proto ModbusResponseDecoder.u16 frame =
      parsed ModbusValue.u16 (rm.parse_u16 parser frame)
  decode_with parser proto ModbusResponseDecoder.i16 frame =
      parsed ModbusValue.i16 (rm.parse_i16 parser frame)
  decode_with parser proto ModbusResponseDecoder.u32_be frame =
      parsed ModbusValue.u32 (rm.parse_u32_be parser frame)
  decode_with parser proto ModbusResponseDecoder.u32_le frame =
      parsed ModbusValue.u32 (rm.parse_u32_le parser frame)
  decode_with parser proto ModbusResponseDecoder.i32_be frame =
      parsed ModbusValue.i32 (rm.parse_i32_be parser frame)
  decode_with parser proto ModbusResponseDecoder.i32_le frame =
      parsed ModbusValue.i32 (rm.parse_i32_le parser frame)
  decode_with parser proto ModbusResponseDecoder.f32_be frame =
      parsed ModbusValue.f32 (rm.parse_f32_be parser frame)
  decode_with parser proto ModbusResponseDecoder.f32_le frame =
      parsed ModbusValue.f32 (rm.parse_f32_le parser frame)
  decode_with parser proto ModbusResponseDecoder.bytes frame =
      map_ok ModbusValue.bytes (response_data_slice proto frame)
  decode_with parser proto ModbusResponseDecoder.utf8_string frame = do
    slice ← response_data_slice proto frame
    value ←
        ok_or (from_utf8 (trim_trailing_nuls slice))
          (invalid_payload "string payload must be valid utf8")
    ok (ModbusValue.utf8_string value)

  unfoldable pub decode_modbus_value :
      ModbusProto
      → ℕ
      → ModbusParserSeed
      → ModbusResponseDecoder
      → List ℕ
      → Result ModbusValue ModbusCommandConversionError
  unfolding make_parser decode_with
  decode_modbus_value proto unit_id parser_seed decoder frame = do
    parser ← make_parser proto unit_id parser_seed
    decode_with parser proto decoder frame

  -- `ModbusResponse::payload`.
  unfoldable pub payload : ModbusResponse → Result PayloadValue ModbusCommandConversionError
  unfolding decode_modbus_value payload_value_from_modbus_value
  payload response = map_ok payload_value_from_modbus_value (
      decode_modbus_value response.proto response.unit_id response.parser_seed response.decoder
        response.frame)

  abbrev pub addressed_resource : Intent → Option String
  addressed_resource (Intent.read resource _) = some resource
  addressed_resource (Intent.write resource _ _) = some resource
  addressed_resource _ = none

  -- The command's correlation, or one of its id and resource.
  abbrev pub correlation_of : Command → String → Option Correlation
  correlation_of command resource =
      map_option correlation_as_borrowed command.correlation
      or some (record { request_id = command.id; reply_to = some (Address.resource resource) })

  unfoldable pub decode_routed :
      {P : Type 0}
      → ModbusDevice P
      → Command
      → ModbusResponse
      → Result RoutedResult ModbusCommandConversionError
  unfolding payload correlation_as_borrowed
  decode_routed device command response = do
    resource ← ok_or (addressed_resource command.intent) unsupported_intent
    value ← payload response
    ok (record {
      source = record { device_id = device.id; protocol = Protocol.modbus };
      result = record {
        command_id = command.id;
        device_id = device.id;
        state = DeliveryState.completed;
        payload = some value;
        error = none;
        correlation = correlation_of command resource;
      };
      transport = none;
    })

  unfoldable pub decode_bridge :
      {P : Type 0}
      → ModbusDevice P
      → Command
      → ModbusResponse
      → Result BridgeMessage ModbusCommandConversionError
  unfolding decode_routed routed_result_to_bridge
  decode_bridge device command response =
      map_ok routed_result_to_bridge (decode_routed device command response)
