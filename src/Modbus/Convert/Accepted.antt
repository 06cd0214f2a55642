-- ===== src/Modbus/Convert/Accepted.antt =====
-- A write that never becomes a request.
use ferredge.Prelude.{
  ◌≡◌, refl, ℕ, false, String, ok, is_ok, Result-cases, inl, inr, arith, ◌<◌, ◌^◌, [], ◌∷◌, lt→ltb,
}
use ferredge.Core.Payload.{PayloadValue}
use ferredge.Modbus.Types.{
  ModbusProto, ModbusValueCodec, ModbusResourceAttributes, ModbusClientOptions, ModbusValue,
}
use ferredge.Modbus.Rmodbus.{Rmodbus}
use ferredge.Prelude.Int.{negsuc}
use ferredge.Modbus.Value.{modbus_value_from_payload, value_from_payload, decode_numeric_list}
use ferredge.Modbus.Convert.Build.{
  coil_write_seed, holding_write_seed, write_seed, build_write_request,
}

value_of_negative :
    (codec : ModbusValueCodec) (n : ℕ)
    → codec ≡ ModbusValueCodec.i16
    → n < 2 ^ 15
    → value_from_payload codec (PayloadValue.i64 (negsuc n)) ≡ ok (ModbusValue.i16 (negsuc n ∷ []))
unfolding value_from_payload decode_numeric_list
value_of_negative codec n is_i16 fits_word = rw (is_i16, lt→ltb n (2 ^ 15) fits_word) refl

seed_of_negative :
    (rm : Rmodbus) (builder : rm.Request) (resource : String)
    (attributes : ModbusResourceAttributes) (n : ℕ)
    → attributes.codec ≡ ModbusValueCodec.i16
    → is_ok (write_seed rm builder resource attributes (ModbusValue.i16 (negsuc n ∷ []))) ≡ false
unfolding write_seed coil_write_seed holding_write_seed
seed_of_negative rm builder resource attributes n is_i16 = ground arith

-- A negative number that the codec `I16` reads as a value is never written, whatever the register
-- kind: the request is refused.
pub build_write_request-negative :
    (rm : Rmodbus) (resource : String) (attributes : ModbusResourceAttributes) (n : ℕ)
    (framing : ModbusProto) (opts : ModbusClientOptions)
    → attributes.codec ≡ ModbusValueCodec.i16
    → n < 2 ^ 15
    → (modbus_value_from_payload attributes (PayloadValue.i64 (negsuc n))
        ≡ ok (ModbusValue.i16 (negsuc n ∷ [])))
      × (is_ok
            (build_write_request rm resource attributes (PayloadValue.i64 (negsuc n)) framing opts)
          ≡ false)
unfolding build_write_request modbus_value_from_payload
build_write_request-negative rm resource attributes n framing opts is_i16 fits_word =
    let value = value_of_negative attributes.codec n is_i16 fits_word in
    (
      value,
      elim (Result-cases (
          write_seed rm (rm.new opts.unit_id framing) resource attributes
            (ModbusValue.i16 (negsuc n ∷ [])))) [
              | inl (seed, s) ↦
                  cc
                    (seed_of_negative rm (rm.new opts.unit_id framing) resource attributes n is_i16)
              | inr (x, s) ↦ rw (build_write_request, value, s) refl
            ],
    )
