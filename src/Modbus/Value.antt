-- ===== src/Modbus/Value.antt =====
-- crates/ferredge-proto-modbus/src/convert.rs: values from payloads, and the 16-bit words of the
-- 32-bit ones; codec.rs: payloads from values.
pub mod Words
pub mod RoundTrip
use ferredge.Prelude.{
  ℕ, ◌+◌, ◌-◌, ◌*◌, ◌/◌, ◌%◌, ◌^◌, Bool, true, false, String, List, [], ◌∷◌, ◌++◌, map, Result, ok,
  err, ◌>>=◌, map_ok, collect, ltb, leb, ◌==◌, if◌then◌else◌,
}
use ferredge.Prelude.Int.{ℤ, pos, negsuc}
use ferredge.Core.Payload as Payload
use ferredge.Core.Payload.{PayloadValue, Payloads}
use ferredge.Modbus.Types.{
  ModbusValueCodec, ModbusResourceAttributes, ModbusValue, ModbusCommandConversionError,
  invalid_payload,
}
use ferredge.Modbus.Float.{f32_of_f64, f32_of_int, f64_of_f32}

abbrev pub entries : Payloads → List PayloadValue
entries Payload.nil = []
entries (Payload.cons value values) = value ∷ entries values

abbrev pub from_entries : List PayloadValue → Payloads
from_entries [] = Payload.nil
from_entries (value ∷ values) = Payload.cons value (from_entries values)

-- `uN::try_from` and `iN::try_from` of an `i128`, with the message that each caller gives.
abbrev pub try_unsigned : ℕ → String → ℤ → Result ℕ ModbusCommandConversionError
try_unsigned bits message (pos n) = if ltb n (2 ^ bits) then ok n else err (invalid_payload message)
try_unsigned bits message (negsuc n) = err (invalid_payload message)

abbrev pub try_signed : ℕ → String → ℤ → Result ℤ ModbusCommandConversionError
try_signed bits message (pos n) =
    if ltb n (2 ^ (bits - 1)) then ok (pos n) else err (invalid_payload message)
try_signed bits message (negsuc n) =
    if ltb n (2 ^ (bits - 1)) then ok (negsuc n) else err (invalid_payload message)

-- One entry of a numeric list, and the scalar case.
abbrev pub decode_number :
    {T : Type 0}
    → String
    → (ℤ → Result T ModbusCommandConversionError)
    → PayloadValue
    → Result T ModbusCommandConversionError
decode_number scalar_error map_number (PayloadValue.i64 value) = map_number value
decode_number scalar_error map_number (PayloadValue.u64 value) = map_number (pos value)
decode_number scalar_error map_number _ = err (invalid_payload scalar_error)

unfoldable pub decode_numeric_list :
    {T : Type 0}
    → PayloadValue
    → String
    → (ℤ → Result T ModbusCommandConversionError)
    → Result (List T) ModbusCommandConversionError
unfolding collect
decode_numeric_list (PayloadValue.list values) scalar_error map_number =
    collect (decode_number scalar_error map_number) (entries values)
decode_numeric_list payload scalar_error map_number =
    map_ok (λ value. value ∷ []) (decode_number scalar_error map_number payload)

abbrev pub decode_float : String → PayloadValue → Result ℕ ModbusCommandConversionError
decode_float message (PayloadValue.f64 value) = ok (f32_of_f64 value)
decode_float message (PayloadValue.i64 value) = ok (f32_of_int value)
decode_float message (PayloadValue.u64 value) = ok (f32_of_int (pos value))
decode_float message _ = err (invalid_payload message)

unfoldable pub decode_payload_f32_list : PayloadValue → Result (List ℕ) ModbusCommandConversionError
unfolding collect f32_of_f64 f32_of_int
decode_payload_f32_list (PayloadValue.list values) =
    collect (decode_float "f32 payload entries must be numeric") (entries values)
decode_payload_f32_list payload =
    map_ok (λ value. value ∷ []) (decode_float "f32 payload must be numeric" payload)

abbrev pub decode_flag : PayloadValue → Result Bool ModbusCommandConversionError
decode_flag (PayloadValue.bool flag) = ok flag
decode_flag _ = err (invalid_payload "bits payload entries must be booleans")

unfoldable pub decode_payload_bits : PayloadValue → Result (List Bool) ModbusCommandConversionError
unfolding collect
decode_payload_bits (PayloadValue.list values) = collect decode_flag (entries values)
decode_payload_bits _ = err (invalid_payload "payload must be a list")

abbrev pub decode_payload_bool : PayloadValue → Result Bool ModbusCommandConversionError
decode_payload_bool (PayloadValue.bool value) = ok value
decode_payload_bool _ = err (invalid_payload "bool payload must be a boolean")

abbrev pub decode_bytes_from_payload_value :
    PayloadValue → Result (List ℕ) ModbusCommandConversionError
decode_bytes_from_payload_value (PayloadValue.bytes value) = ok value
decode_bytes_from_payload_value _ = err (invalid_payload "bytes payload must be binary data")

abbrev pub decode_payload_string : PayloadValue → Result String ModbusCommandConversionError
decode_payload_string (PayloadValue.string value) = ok value
decode_payload_string _ = err (invalid_payload "string payload must be utf8 text")

abbrev u32_value : PayloadValue → Result ModbusValue ModbusCommandConversionError
u32_value payload = map_ok ModbusValue.u32 (
    decode_numeric_list payload "u32 payload must be unsigned integer"
      (try_unsigned 32 "u32 payload out of range"))

abbrev i32_value : PayloadValue → Result ModbusValue ModbusCommandConversionError
i32_value payload = map_ok ModbusValue.i32 (
    decode_numeric_list payload "i32 payload must be integer"
      (try_signed 32 "i32 payload out of range"))

unfoldable pub value_from_payload :
    ModbusValueCodec → PayloadValue → Result ModbusValue ModbusCommandConversionError
unfolding decode_numeric_list decode_payload_f32_list decode_payload_bits
value_from_payload ModbusValueCodec.bool payload =
    map_ok ModbusValue.bool (decode_payload_bool payload)
value_from_payload ModbusValueCodec.bits payload =
    map_ok ModbusValue.bits (decode_payload_bits payload)
value_from_payload ModbusValueCodec.u16 payload = map_ok ModbusValue.u16 (
    decode_numeric_list payload "u16 payload must be unsigned integer"
      (try_unsigned 16 "u16 payload out of range"))
value_from_payload ModbusValueCodec.i16 payload = map_ok ModbusValue.i16 (
    decode_numeric_list payload "i16 payload must be integer"
      (try_signed 16 "i16 payload out of range"))
value_from_payload ModbusValueCodec.bytes payload =
    map_ok ModbusValue.bytes (decode_bytes_from_payload_value payload)
value_from_payload ModbusValueCodec.utf8_string payload =
    map_ok ModbusValue.utf8_string (decode_payload_string payload)
value_from_payload ModbusValueCodec.f32_be payload =
    map_ok ModbusValue.f32 (decode_payload_f32_list payload)
value_from_payload ModbusValueCodec.f32_le payload =
    map_ok ModbusValue.f32 (decode_payload_f32_list payload)
value_from_payload ModbusValueCodec.u32_be payload = u32_value payload
value_from_payload ModbusValueCodec.u32_le payload = u32_value payload
value_from_payload ModbusValueCodec.i32_be payload = i32_value payload
value_from_payload ModbusValueCodec.i32_le payload = i32_value payload

unfoldable pub modbus_value_from_payload :
    ModbusResourceAttributes → PayloadValue → Result ModbusValue ModbusCommandConversionError
unfolding value_from_payload
modbus_value_from_payload attributes payload = value_from_payload attributes.codec payload

-- `to_be_bytes` of a `u32`, and `i32` as the `u32` of the same bits.
abbrev pub byte : ℕ → ℕ → ℕ
byte i value = value / 256 ^ i % 256

abbrev pub u32_of_i32 : ℤ → ℕ
u32_of_i32 (pos n) = n
u32_of_i32 (negsuc n) = 2 ^ 32 - 1 - n

-- `u16::from_be_bytes`.
abbrev pub from_be_bytes : ℕ → ℕ → ℕ
from_be_bytes high low = high * 256 + low

unfoldable pub words_be : List ℕ → List ℕ
words_be [] = []
words_be (value ∷ values) =
    from_be_bytes (byte 3 value) (byte 2 value)
    ∷ from_be_bytes (byte 1 value) (byte 0 value)
    ∷ words_be values

-- From the bytes in little-endian order: the third and the fourth, then the first and the second.
unfoldable pub words_le : List ℕ → List ℕ
words_le [] = []
words_le (value ∷ values) =
    from_be_bytes (byte 2 value) (byte 3 value)
    ∷ from_be_bytes (byte 0 value) (byte 1 value)
    ∷ words_le values

abbrev unsigned_words : ModbusValue → Result (List ℕ) ModbusCommandConversionError
unsigned_words (ModbusValue.u32 values) = ok values
unsigned_words _ = err (invalid_payload "u32 payload must be numeric")

abbrev signed_words : ModbusValue → Result (List ℕ) ModbusCommandConversionError
signed_words (ModbusValue.i32 values) = ok (map u32_of_i32 values)
signed_words _ = err (invalid_payload "i32 payload must be numeric")

abbrev float_words : ModbusValue → Result (List ℕ) ModbusCommandConversionError
float_words (ModbusValue.f32 values) = ok values
float_words _ = err (invalid_payload "f32 payload must be numeric")

-- An `f32` is its bits already, so the three types share the conversion.
unfoldable pub words_from_payload :
    ModbusResourceAttributes → ModbusValue → Result (List ℕ) ModbusCommandConversionError
unfolding words_be words_le
words_from_payload attributes payload = elim attributes.codec [
  | ModbusValueCodec.u32_be ↦ map_ok words_be (unsigned_words payload)
  | ModbusValueCodec.u32_le ↦ map_ok words_le (unsigned_words payload)
  | ModbusValueCodec.i32_be ↦ map_ok words_be (signed_words payload)
  | ModbusValueCodec.i32_le ↦ map_ok words_le (signed_words payload)
  | ModbusValueCodec.f32_be ↦ map_ok words_be (float_words payload)
  | ModbusValueCodec.f32_le ↦ map_ok words_le (float_words payload)
  | _ ↦ err (invalid_payload "word conversion requires 32-bit codec")
]

abbrev pub one_or_list : {T : Type 0} → (T → PayloadValue) → List T → PayloadValue
one_or_list convert (value ∷ []) = convert value
one_or_list convert values = PayloadValue.list (from_entries (map convert values))

unfoldable pub payload_value_from_modbus_value : ModbusValue → PayloadValue
unfolding f64_of_f32
payload_value_from_modbus_value ModbusValue.ack = PayloadValue.null
payload_value_from_modbus_value (ModbusValue.bool value) = PayloadValue.bool value
payload_value_from_modbus_value (ModbusValue.bits values) =
    PayloadValue.list (from_entries (map PayloadValue.bool values))
payload_value_from_modbus_value (ModbusValue.u16 values) = one_or_list PayloadValue.u64 values
payload_value_from_modbus_value (ModbusValue.i16 values) = one_or_list PayloadValue.i64 values
payload_value_from_modbus_value (ModbusValue.u32 values) = one_or_list PayloadValue.u64 values
payload_value_from_modbus_value (ModbusValue.i32 values) = one_or_list PayloadValue.i64 values
payload_value_from_modbus_value (ModbusValue.f32 values) =
    one_or_list (λ value. PayloadValue.f64 (f64_of_f32 value)) values
payload_value_from_modbus_value (ModbusValue.bytes value) = PayloadValue.bytes value
payload_value_from_modbus_value (ModbusValue.utf8_string value) = PayloadValue.string value
