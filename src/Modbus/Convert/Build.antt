-- ===== src/Modbus/Convert/Build.antt =====
-- crates/ferredge-proto-modbus/src/convert.rs: `build_read_request`, `build_write_request` and
-- `ModbusBridgeCodec::encode_ref`. Each arm makes its own `generate_*` call
-- and its own seed.
use ferredge.Prelude.{
  ℕ, Bool, true, false, String, Option, Result, ok, err, ◌>>=◌, ◌>>◌, map_err, ok_or, lookup,
}
use ferredge.Core.Payload.{PayloadValue}
use ferredge.Bridge.Message.{RegisterAccessAction}
use ferredge.Modbus.Types.{
  ModbusProto, ModbusRegisterKind, ModbusValueCodec, ModbusResourceAttributes, ModbusClientOptions,
  ModbusDevice, ModbusParserSeed, ModbusResponseDecoder, ModbusValue, ModbusCommandConversionError,
  unknown_resource, unsupported_write, invalid_bridge_message, ModbusRequest, ModbusNativePlan,
  options, proto,
}
use ferredge.Modbus.Rmodbus.{Rmodbus, ErrorKind}
use ferredge.Modbus.Value.{modbus_value_from_payload, words_from_payload}
use ferredge.Modbus.Convert.{
  List, quantity_for_read, decoder_for_codec, validate_bit_codec, validate_register_codec,
  map_rmodbus_build_error, decode_bool, decode_bits, decode_u16, decode_bytes, decode_string,
  encode_wire_frame,
}

module _ (rm : Rmodbus) where
  -- A `generate_*` call with its `?`, and the seed that its arm makes behind it.
  unfoldable pub filled :
      Result (rm.Request × List ℕ) ErrorKind
      → ModbusParserSeed
      → Result (List ℕ × ModbusParserSeed) ModbusCommandConversionError
  filled (ok (builder, binary_frame)) parser_seed = ok (binary_frame, parser_seed)
  filled (err error) parser_seed = err (map_rmodbus_build_error error)

  module _ (builder : rm.Request) where
    -- The `match` of `build_read_request`: the frame and the seed.
    unfoldable pub read_seed :
        ModbusResourceAttributes
        → ℕ
        → Result (List ℕ × ModbusParserSeed) ModbusCommandConversionError
    unfolding validate_bit_codec validate_register_codec filled
    read_seed attributes quantity = elim attributes.register_kind [
      | ModbusRegisterKind.coil ↦
          validate_bit_codec attributes
          >> filled (rm.generate_get_coils builder attributes.address quantity)
              (ModbusParserSeed.read_coils attributes.address quantity)
      | ModbusRegisterKind.discrete_input ↦
          validate_bit_codec attributes
          >> filled (rm.generate_get_discretes builder attributes.address quantity)
              (ModbusParserSeed.read_discretes attributes.address quantity)
      | ModbusRegisterKind.holding_register ↦
          validate_register_codec attributes
          >> filled (rm.generate_get_holdings builder attributes.address quantity)
              (ModbusParserSeed.read_holdings attributes.address quantity)
      | ModbusRegisterKind.input_register ↦
          validate_register_codec attributes
          >> filled (rm.generate_get_inputs builder attributes.address quantity)
              (ModbusParserSeed.read_inputs attributes.address quantity)
    ]

    unfoldable pub coil_write_seed :
        String
        → ModbusResourceAttributes
        → ModbusValue
        → Result (List ℕ × ModbusParserSeed) ModbusCommandConversionError
    unfolding filled
    coil_write_seed resource attributes payload = elim attributes.codec [
      | ModbusValueCodec.bool ↦ (do
        value ← decode_bool payload
        filled (rm.generate_set_coil builder attributes.address value)
            (ModbusParserSeed.write_single_coil attributes.address value))
      | ModbusValueCodec.bits ↦ (do
        values ← decode_bits payload
        filled (rm.generate_set_coils_bulk builder attributes.address values)
            (ModbusParserSeed.write_multiple_coils attributes.address values))
      | _ ↦ err (unsupported_write resource)
    ]

    unfoldable pub holding_write_seed :
        String
        → ModbusResourceAttributes
        → ModbusValue
        → Result (List ℕ × ModbusParserSeed) ModbusCommandConversionError
    unfolding words_from_payload filled
    holding_write_seed resource attributes payload = elim attributes.codec [
      | ModbusValueCodec.u16 ↦ (do
        value ← decode_u16 payload
        filled (rm.generate_set_holding builder attributes.address value)
            (ModbusParserSeed.write_single_holding attributes.address value))
      | ModbusValueCodec.i16 ↦ (do
        value ← decode_u16 payload
        filled (rm.generate_set_holding builder attributes.address value)
            (ModbusParserSeed.write_single_holding attributes.address value))
      | ModbusValueCodec.bytes ↦ (do
        values ← decode_bytes payload
        filled (rm.generate_set_holdings_bulk_from_slice builder attributes.address values)
            (ModbusParserSeed.write_multiple_holdings_bytes attributes.address values))
      | ModbusValueCodec.utf8_string ↦ (do
        value ← decode_string payload
        filled (rm.generate_set_holdings_string builder attributes.address value)
            (ModbusParserSeed.write_string attributes.address value))
      | ModbusValueCodec.bool ↦ err (unsupported_write resource)
      | ModbusValueCodec.bits ↦ err (unsupported_write resource)
      | _ ↦ (do
        values ← words_from_payload attributes payload
        filled (rm.generate_set_holdings_bulk builder attributes.address values)
            (ModbusParserSeed.write_multiple_holdings attributes.address values))
    ]

    unfoldable pub write_seed :
        String
        → ModbusResourceAttributes
        → ModbusValue
        → Result (List ℕ × ModbusParserSeed) ModbusCommandConversionError
    unfolding coil_write_seed holding_write_seed
    write_seed resource attributes payload = elim attributes.register_kind [
      | ModbusRegisterKind.coil ↦ coil_write_seed resource attributes payload
      | ModbusRegisterKind.holding_register ↦ holding_write_seed resource attributes payload
      | _ ↦ err (unsupported_write resource)
    ]

  -- What ends both: the frame on the wire and the request.
  unfoldable pub finished_request :
      String
      → Bool
      → ModbusProto
      → ModbusClientOptions
      → List ℕ × ModbusParserSeed
      → ModbusResponseDecoder
      → Result ModbusRequest ModbusCommandConversionError
  unfolding encode_wire_frame
  finished_request resource is_write proto' options' (binary_frame, parser_seed) decoder = do
    frame ← map_err map_rmodbus_build_error (encode_wire_frame rm proto' binary_frame)
    ok (record {
      resource = resource;
      is_write = is_write;
      frame = frame;
      proto = proto';
      unit_id = options'.unit_id;
      parser_seed = parser_seed;
      decoder = decoder;
      timeout = options'.request_timeout;
    })

  unfoldable pub build_read_request :
      String
      → ModbusResourceAttributes
      → ModbusProto
      → ModbusClientOptions
      → Result ModbusRequest ModbusCommandConversionError
  unfolding quantity_for_read read_seed finished_request decoder_for_codec
  build_read_request resource attributes proto' options' = do
    quantity ← quantity_for_read attributes
    made ← read_seed (rm.new options'.unit_id proto') attributes quantity
    finished_request resource false proto' options' made (decoder_for_codec attributes quantity)

  unfoldable pub build_write_request :
      String
      → ModbusResourceAttributes
      → PayloadValue
      → ModbusProto
      → ModbusClientOptions
      → Result ModbusRequest ModbusCommandConversionError
  unfolding modbus_value_from_payload write_seed finished_request
  build_write_request resource attributes payload proto' options' = do
    value ← modbus_value_from_payload attributes payload
    made ← write_seed (rm.new options'.unit_id proto') resource attributes value
    finished_request resource true proto' options' made ModbusResponseDecoder.ack

  unfoldable pub build_request :
      RegisterAccessAction
      → String
      → ModbusResourceAttributes
      → Option PayloadValue
      → ModbusProto
      → ModbusClientOptions
      → Result ModbusRequest ModbusCommandConversionError
  unfolding build_read_request build_write_request
  build_request RegisterAccessAction.read resource attributes payload proto' options' =
      build_read_request resource attributes proto' options'
  build_request RegisterAccessAction.write resource attributes payload proto' options' = do
    given ← ok_or payload invalid_bridge_message
    build_write_request resource attributes given proto' options'

  unfoldable pub encode_ref :
      {P : Type 0}
      → ModbusDevice P
      → ModbusNativePlan
      → Result ModbusRequest ModbusCommandConversionError
  unfolding build_request lookup options proto
  encode_ref device planned = do
    found ← ok_or (lookup planned.resource device.resources) (unknown_resource planned.resource)
    build_request planned.action planned.resource found.resource_attributes planned.payload
        (proto device.endpoint) (options device.endpoint)
