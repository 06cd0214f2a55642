-- ===== src/Modbus/Value/RoundTrip.antt =====
-- A value, given out as a payload and taken in again.
use ferredge.Prelude.{
  ◌≡◌, refl, ap, ℕ, ◌-◌, ◌<◌, ◌^◌, Bool, String, List, [], ◌∷◌, map, Result, ok, collect, All,
  lt→ltb,
}
use ferredge.Prelude.Int.{ℤ, pos, negsuc}
use ferredge.Core.Payload.{PayloadValue}
use ferredge.Modbus.Types.{ModbusValueCodec, ModbusValue, ModbusCommandConversionError}
use ferredge.Modbus.Value.{
  value_from_payload, payload_value_from_modbus_value, decode_numeric_list, decode_payload_bits,
  decode_number, decode_flag, try_unsigned, try_signed, entries, from_entries, one_or_list,
}

abbrev pub FitsUnsigned : ℕ → ℕ → Type 0
FitsUnsigned bits n = n < 2 ^ bits

abbrev pub FitsSigned : ℕ → ℤ → Type 0
FitsSigned bits (pos n) = n < 2 ^ (bits - 1)
FitsSigned bits (negsuc n) = n < 2 ^ (bits - 1)

-- The values that a codec reads, the floating-point ones left out, each within its width.
abbrev pub HasType : ModbusValueCodec → ModbusValue → Type 0
HasType ModbusValueCodec.bool (ModbusValue.bool _) = Unit
HasType ModbusValueCodec.bits (ModbusValue.bits _) = Unit
HasType ModbusValueCodec.u16 (ModbusValue.u16 values) = All (FitsUnsigned 16) values
HasType ModbusValueCodec.i16 (ModbusValue.i16 values) = All (FitsSigned 16) values
HasType ModbusValueCodec.u32_be (ModbusValue.u32 values) = All (FitsUnsigned 32) values
HasType ModbusValueCodec.u32_le (ModbusValue.u32 values) = All (FitsUnsigned 32) values
HasType ModbusValueCodec.i32_be (ModbusValue.i32 values) = All (FitsSigned 32) values
HasType ModbusValueCodec.i32_le (ModbusValue.i32 values) = All (FitsSigned 32) values
HasType ModbusValueCodec.bytes (ModbusValue.bytes _) = Unit
HasType ModbusValueCodec.utf8_string (ModbusValue.utf8_string _) = Unit
HasType _ _ = ⊥

entries-from_entries : (values : List PayloadValue) → entries (from_entries values) ≡ values
entries-from_entries [] = refl
entries-from_entries (value ∷ values) = ap (λ t. value ∷ t) (entries-from_entries values)

collect-map :
    {A B E : Type 0} (P : A → Type 0) (decode : B → Result A E) (give : A → B)
    → ((a : A) → P a → decode (give a) ≡ ok a)
    → (given : List A) → All P given
    → collect decode (map give given) ≡ ok given
unfolding collect
collect-map P decode give back [] all = refl
collect-map P decode give back (a ∷ given) (p, all) =
    rw (back a p, collect-map P decode give back given all) refl

unsigned_back :
    (bits : ℕ) (message : String) (n : ℕ)
    → FitsUnsigned bits n
    → try_unsigned bits message (pos n) ≡ ok n
unsigned_back bits message n fits = rw (lt→ltb n (2 ^ bits) fits) refl

signed_back :
    (bits : ℕ) (message : String) (n : ℤ) → FitsSigned bits n → try_signed bits message n ≡ ok n
signed_back bits message (pos n) fits = rw (lt→ltb n (2 ^ (bits - 1)) fits) refl
signed_back bits message (negsuc n) fits = rw (lt→ltb n (2 ^ (bits - 1)) fits) refl

-- The payload of a list of numbers is one number or a list, and both are read back.
module _ {T : Type 0} (P : T → Type 0) (give : T → PayloadValue) (scalar_error : String)
    (back : ℤ → Result T ModbusCommandConversionError)
    (numeric : (t : T) → P t → decode_number scalar_error back (give t) ≡ ok t) where
  listed :
      (values : List T)
      → All P values
      → decode_numeric_list (PayloadValue.list (from_entries (map give values))) scalar_error back
        ≡ ok values
  unfolding decode_numeric_list
  listed values all =
      rw (entries-from_entries (map give values))
        (collect-map P (decode_number scalar_error back) give numeric values all)

unsigned_list :
    (bits : ℕ) (scalar_error message : String) (values : List ℕ)
    → All (FitsUnsigned bits) values
    → decode_numeric_list
        (one_or_list PayloadValue.u64 values)
        scalar_error
        (try_unsigned bits message)
      ≡ ok values
unfolding decode_numeric_list
unsigned_list bits scalar_error message [] all = refl
unsigned_list bits scalar_error message (n ∷ []) (fits, all) =
    rw (unsigned_back bits message n fits) refl
unsigned_list bits scalar_error message (n ∷ m ∷ values) all =
    listed (FitsUnsigned bits) PayloadValue.u64 scalar_error (try_unsigned bits message)
      (unsigned_back bits message) (n ∷ m ∷ values) all

signed_list :
    (bits : ℕ) (scalar_error message : String) (values : List ℤ)
    → All (FitsSigned bits) values
    → decode_numeric_list
        (one_or_list PayloadValue.i64 values)
        scalar_error
        (try_signed bits message)
      ≡ ok values
unfolding decode_numeric_list
signed_list bits scalar_error message [] all = refl
signed_list bits scalar_error message (n ∷ []) (fits, all) =
    rw (signed_back bits message n fits) refl
signed_list bits scalar_error message (n ∷ m ∷ values) all =
    listed (FitsSigned bits) PayloadValue.i64 scalar_error (try_signed bits message)
      (signed_back bits message) (n ∷ m ∷ values) all

flags_back :
    (values : List Bool)
    → decode_payload_bits (PayloadValue.list (from_entries (map PayloadValue.bool values)))
      ≡ ok values
unfolding decode_payload_bits
flags_back values = rw (entries-from_entries (map PayloadValue.bool values)) (
    collect-map (λ _. Unit {0}) decode_flag PayloadValue.bool (λ a p. refl) values
      (anything values))
  where
    anything : (values : List Bool) → All (λ _. Unit {0}) values
    anything [] = tt
    anything (v ∷ vs) = (tt, anything vs)

-- A value of the codec's type, given out as a payload, is read back as it was: one number or a list
-- of them, flags, bytes or text, for every codec but the floating-point ones.
pub value_from_payload_round_trip :
    (codec : ModbusValueCodec) (value : ModbusValue)
    → HasType codec value
    → value_from_payload codec (payload_value_from_modbus_value value) ≡ ok value
unfolding value_from_payload payload_value_from_modbus_value
value_from_payload_round_trip ModbusValueCodec.bool (ModbusValue.bool b) typed = refl
value_from_payload_round_trip ModbusValueCodec.bits (ModbusValue.bits bs) typed =
    rw (flags_back bs) refl
value_from_payload_round_trip ModbusValueCodec.u16 (ModbusValue.u16 values) typed =
    rw (unsigned_list 16 _ _ values typed) refl
value_from_payload_round_trip ModbusValueCodec.i16 (ModbusValue.i16 values) typed =
    rw (signed_list 16 _ _ values typed) refl
value_from_payload_round_trip ModbusValueCodec.u32_be (ModbusValue.u32 values) typed =
    rw (unsigned_list 32 _ _ values typed) refl
value_from_payload_round_trip ModbusValueCodec.u32_le (ModbusValue.u32 values) typed =
    rw (unsigned_list 32 _ _ values typed) refl
value_from_payload_round_trip ModbusValueCodec.i32_be (ModbusValue.i32 values) typed =
    rw (signed_list 32 _ _ values typed) refl
value_from_payload_round_trip ModbusValueCodec.i32_le (ModbusValue.i32 values) typed =
    rw (signed_list 32 _ _ values typed) refl
value_from_payload_round_trip ModbusValueCodec.bytes (ModbusValue.bytes bs) typed = refl
value_from_payload_round_trip ModbusValueCodec.utf8_string (ModbusValue.utf8_string s) typed = refl
value_from_payload_round_trip codec value typed = absurd typed
