-- ===== src/Witness/Modbus.antt =====
-- The theorems on Modbus requests, values and frames at concrete data.
use ferredge.Prelude.{
  is_ok, false, ◌≡◌, refl, ℕ, false, none, some, List, [], ◌∷◌, ok, ◌>>=◌, lookup, arith,
}
use ferredge.Prelude.Int.{pos, negsuc}
use ferredge.Bridge.Message.{RegisterAccessAction}
use ferredge.Core.Payload.{PayloadValue}
use ferredge.Modbus.Types.{ModbusValueCodec, ModbusValue, ModbusNativePlan, options}
use ferredge.Modbus.Reconnect.{delay_for_attempt}
use ferredge.Modbus.Value.{value_from_payload, payload_value_from_modbus_value}
use ferredge.Modbus.Value.RoundTrip.{value_from_payload_round_trip}
use ferredge.Modbus.Float.{f32_of_f64, f64_of_f32, f32_of_int}
use ferredge.Modbus.Convert.Build.{encode_ref}
use ferredge.Modbus.Convert.Seeded.{IsAnswerFor, Replays, encode_ref-IsAnswerFor}
use ferredge.Modbus.Plan.{
  plan_ref, plan_native, plan_bridge, plan_of_message, native_request, bridge_request,
}
use ferredge.Modbus.Plan.Equivalence.{planners_agree, requests_agree}
use ferredge.Modbus.Codec.{make_parser}
use ferredge.Modbus.Codec.Reading.{make_parser-Replays}
use ferredge.Modbus.Types.{ModbusResourceAttributes, ModbusRegisterKind, ModbusProto}
use ferredge.Modbus.Value.{modbus_value_from_payload}
use ferredge.Modbus.Convert.Build.{build_write_request}
use ferredge.Modbus.Convert.Accepted.{build_write_request-negative}
use ferredge.Modbus.Types.{ModbusResponse}
use ferredge.Modbus.Codec.{payload, decode_bridge}
use ferredge.Modbus.Codec.Outcome.{IsBridged, decode_bridge-IsBridged}
use ferredge.Witness.Data.{pump, retries, write_speed, toy, speed_request, no_text}

third_delay : delay_for_attempt retries 3 ≡ some 400000000
unfolding delay_for_attempt
third_delay = refl

value_from_payload_round_trip_example :
    value_from_payload ModbusValueCodec.i16
      (payload_value_from_modbus_value (ModbusValue.i16 (negsuc 4 ∷ pos 7 ∷ [])))
    ≡ ok (ModbusValue.i16 (negsuc 4 ∷ pos 7 ∷ []))
value_from_payload_round_trip_example =
    value_from_payload_round_trip ModbusValueCodec.i16 (ModbusValue.i16 (negsuc 4 ∷ pos 7 ∷ []))
      (omega arith, (omega arith, tt))

abbrev speed_plan : ModbusNativePlan
speed_plan = record {
  resource = "speed";
  action = RegisterAccessAction.write;
  payload = some (PayloadValue.u64 1500);
  register = record { address = 40; domain = "holding-register"; quantity = none };
  unit_id = 17;
}

encode_ref-IsAnswerFor_example :
    IsAnswerFor toy pump speed_plan
      (lookup speed_plan.resource pump.resources)
      (encode_ref toy pump speed_plan)
encode_ref-IsAnswerFor_example = encode_ref-IsAnswerFor toy pump speed_plan

speed_encoded : encode_ref toy pump speed_plan ≡ ok speed_request
unfolding encode_ref
speed_encoded = refl

planners_agree_example :
    (plan_ref pump write_speed ≡ plan_native pump write_speed)
    × ((plan_bridge pump write_speed >>= plan_of_message) ≡ plan_native pump write_speed)
unfolding options
planners_agree_example = planners_agree pump (omega arith) write_speed

requests_agree_example : native_request toy pump write_speed ≡ bridge_request toy pump write_speed
unfolding options
requests_agree_example = requests_agree pump (omega arith) toy write_speed

abbrev two_bytes : List ℕ
two_bytes = 5 ∷ 220 ∷ []

make_parser-Replays_example :
    (replays : Replays toy speed_request) × (make_parser toy no_text speed_request.proto
        speed_request.unit_id speed_request.parser_seed
      ≡ ok replays.0)
make_parser-Replays_example =
    make_parser-Replays toy no_text pump speed_plan speed_request speed_encoded

-- 1.5, 0.1, -2.5, 1e-40 (subnormal) and 1e300.
narrowed :
    (f32_of_f64 0x3FF8000000000000 ≡ 0x3FC00000)
    × (f32_of_f64 0x3FB999999999999A ≡ 0x3DCCCCCD)
    × (f32_of_f64 0xC004000000000000 ≡ 0xC0200000)
    × (f32_of_f64 0x37A16C262777579C ≡ 0x000116C2)
    × (f32_of_f64 0x7E37E43C8800759C ≡ 0x7F800000)
unfolding f32_of_f64
narrowed = (refl, refl, refl, refl, refl)

widened :
    (f64_of_f32 0x3FC00000 ≡ 0x3FF8000000000000)
    × (f64_of_f32 0x000116C2 ≡ 0x37A16C2000000000)
    × (f32_of_int (pos 16777217) ≡ 0x4B800000)
    × (f32_of_int (negsuc 0) ≡ 0xBF800000)
unfolding f64_of_f32 f32_of_int
widened = (refl, refl, refl, refl)

abbrev signed_word : ModbusResourceAttributes
signed_word = record {
  address = 8;
  register_kind = ModbusRegisterKind.holding_register;
  codec = ModbusValueCodec.i16;
  quantity = none;
  description = none;
}

build_write_request-negative_example :
    (modbus_value_from_payload signed_word (PayloadValue.i64 (negsuc 4))
      ≡ ok (ModbusValue.i16 (negsuc 4 ∷ [])))
    × (is_ok (
          build_write_request toy "offset" signed_word
            (PayloadValue.i64 (negsuc 4))
            ModbusProto.rtu
            (options pump.endpoint))
        ≡ false)
build_write_request-negative_example =
    build_write_request-negative toy "offset" signed_word 4 ModbusProto.rtu (options pump.endpoint)
      refl (omega arith)

abbrev speed_response : ModbusResponse
speed_response = record {
  frame = speed_request.frame;
  proto = speed_request.proto;
  unit_id = speed_request.unit_id;
  parser_seed = speed_request.parser_seed;
  decoder = speed_request.decoder;
}

decode_bridge-IsBridged_example :
    IsBridged pump write_speed write_speed.intent
      (payload toy no_text speed_response)
      (decode_bridge toy no_text pump write_speed speed_response)
decode_bridge-IsBridged_example =
    decode_bridge-IsBridged toy no_text pump write_speed speed_response
