-- ===== src/Modbus/Convert/Seeds.antt =====
-- The seed of a request and the call that made its frame.
use ferredge.Prelude.{
  ◌≡◌, refl, subst, ℕ, Bool, true, false, String, Option, Result, ok, err, ◌>>=◌,
}
use ferredge.Modbus.Types.{
  ModbusRegisterKind, ModbusValueCodec, ModbusResourceAttributes, ModbusParserSeed, ModbusValue,
}
use ferredge.Modbus.Value.{words_from_payload}
use ferredge.Modbus.Convert.{
  ErrorKind, none, generate, List, ModbusCommandConversionError, Rmodbus, some, validate_bit_codec,
  validate_register_codec, decode_bool, decode_bits, decode_u16, decode_bytes, decode_string,
}
use ferredge.Modbus.Convert.Build.{
  filled, read_seed, coil_write_seed, holding_write_seed, write_seed,
}

-- A predicate of the result, where there is one.
abbrev pub OnOk : {A E : Type 0} → (A → Type 0) → Result A E → Type 0
OnOk P (ok a) = P a
OnOk P (err e) = Unit

pub OnOk-bind :
    {A B E : Type 0} (Q : B → Type 0) (r : Result A E) (f : A → Result B E)
    → ((a : A) → r ≡ ok a → OnOk Q (f a))
    → OnOk Q (r >>= f)
OnOk-bind Q (ok a) f next = next a refl
OnOk-bind Q (err e) f next = tt

-- What a seed asks for: the address, the register kind, whether it writes.
abbrev pub seed_address : ModbusParserSeed → ℕ
seed_address (ModbusParserSeed.read_coils address _) = address
seed_address (ModbusParserSeed.read_discretes address _) = address
seed_address (ModbusParserSeed.read_holdings address _) = address
seed_address (ModbusParserSeed.read_inputs address _) = address
seed_address (ModbusParserSeed.write_single_coil address _) = address
seed_address (ModbusParserSeed.write_single_holding address _) = address
seed_address (ModbusParserSeed.write_multiple_coils address _) = address
seed_address (ModbusParserSeed.write_multiple_holdings address _) = address
seed_address (ModbusParserSeed.write_multiple_holdings_bytes address _) = address
seed_address (ModbusParserSeed.write_string address _) = address

abbrev pub seed_kind : ModbusParserSeed → ModbusRegisterKind
seed_kind (ModbusParserSeed.read_coils _ _) = ModbusRegisterKind.coil
seed_kind (ModbusParserSeed.read_discretes _ _) = ModbusRegisterKind.discrete_input
seed_kind (ModbusParserSeed.read_inputs _ _) = ModbusRegisterKind.input_register
seed_kind (ModbusParserSeed.write_single_coil _ _) = ModbusRegisterKind.coil
seed_kind (ModbusParserSeed.write_multiple_coils _ _) = ModbusRegisterKind.coil
seed_kind _ = ModbusRegisterKind.holding_register

abbrev pub seed_is_write : ModbusParserSeed → Bool
seed_is_write (ModbusParserSeed.read_coils _ _) = false
seed_is_write (ModbusParserSeed.read_discretes _ _) = false
seed_is_write (ModbusParserSeed.read_holdings _ _) = false
seed_is_write (ModbusParserSeed.read_inputs _ _) = false
seed_is_write _ = true

-- How much a read asks for.
abbrev pub seed_quantity : ModbusParserSeed → Option ℕ
seed_quantity (ModbusParserSeed.read_coils _ quantity) = some quantity
seed_quantity (ModbusParserSeed.read_discretes _ quantity) = some quantity
seed_quantity (ModbusParserSeed.read_holdings _ quantity) = some quantity
seed_quantity (ModbusParserSeed.read_inputs _ quantity) = some quantity
seed_quantity _ = none

pub record IsSeedOf (attributes : ModbusResourceAttributes) (is_write : Bool) (asked : Option ℕ)
    (parser_seed : ModbusParserSeed) : Type 0 where
  pub address : seed_address parser_seed ≡ attributes.address
  pub kind : seed_kind parser_seed ≡ attributes.register_kind
  pub writes : seed_is_write parser_seed ≡ is_write
  pub quantity : seed_quantity parser_seed ≡ asked

abbrev pub attributes_of :
    ℕ → ModbusValueCodec → Option ℕ → Option String → ModbusRegisterKind → ModbusResourceAttributes
attributes_of address codec quantity description kind = record {
  address = address;
  register_kind = kind;
  codec = codec;
  quantity = quantity;
  description = description;
}

module _ (rm : Rmodbus) (builder : rm.Request) where
  -- The seed is the resource's, and what `make_parser` calls for it is the call that made the frame.
  abbrev pub IsMade :
      ModbusResourceAttributes → Bool → Option ℕ → List ℕ × ModbusParserSeed → Type 0
  IsMade attributes is_write asked (binary_frame, parser_seed) =
      IsSeedOf attributes is_write asked parser_seed
      × ((parser : rm.Request) × (generate rm builder parser_seed ≡ ok (parser, binary_frame)))

  module _ (attributes : ModbusResourceAttributes) (is_write : Bool) (asked : Option ℕ) where
    filled-IsMade :
        (generated : Result (rm.Request × List ℕ) ErrorKind) (parser_seed : ModbusParserSeed)
        → generate rm builder parser_seed ≡ generated
        → IsSeedOf attributes is_write asked parser_seed
        → OnOk (IsMade attributes is_write asked) (filled rm generated parser_seed)
    unfolding filled
    filled-IsMade (ok (parser, binary_frame)) parser_seed call is_seed = (is_seed, (parser, call))
    filled-IsMade (err error) parser_seed call is_seed = tt

    called-IsMade :
        {A : Type 0} (checked : Result A ModbusCommandConversionError)
        (seed_of : A → ModbusParserSeed)
        → ((a : A) → IsSeedOf attributes is_write asked (seed_of a))
        → OnOk
            (IsMade attributes is_write asked)
            (checked >>= λ a. filled rm (generate rm builder (seed_of a)) (seed_of a))
    called-IsMade checked seed_of is_seed =
        OnOk-bind (IsMade attributes is_write asked) checked _
          (λ a e. filled-IsMade (generate rm builder (seed_of a)) (seed_of a) refl (is_seed a))

  module _ (address : ℕ) (codec : ModbusValueCodec) (quantity : Option ℕ)
      (description : Option String) where
    read_seed_of_kind :
        (n : ℕ) (kind : ModbusRegisterKind)
        → OnOk
            (IsMade (attributes_of address codec quantity description kind) false (some n))
            (read_seed rm builder (attributes_of address codec quantity description kind) n)
    unfolding read_seed generate
    read_seed_of_kind n ModbusRegisterKind.coil =
        called-IsMade (attributes_of address codec quantity description ModbusRegisterKind.coil)
          false (some n)
          (validate_bit_codec
            (attributes_of address codec quantity description ModbusRegisterKind.coil))
          (λ _. ModbusParserSeed.read_coils address n)
          (λ _. record { address = refl; kind = refl; writes = refl; quantity = refl })
    read_seed_of_kind n ModbusRegisterKind.discrete_input =
        called-IsMade
          (attributes_of address codec quantity description ModbusRegisterKind.discrete_input) false
          (some n)
          (validate_bit_codec
            (attributes_of address codec quantity description ModbusRegisterKind.discrete_input))
          (λ _. ModbusParserSeed.read_discretes address n)
          (λ _. record { address = refl; kind = refl; writes = refl; quantity = refl })
    read_seed_of_kind n ModbusRegisterKind.holding_register =
        called-IsMade
          (attributes_of address codec quantity description ModbusRegisterKind.holding_register)
          false (some n)
          (validate_register_codec
            (attributes_of address codec quantity description ModbusRegisterKind.holding_register))
          (λ _. ModbusParserSeed.read_holdings address n)
          (λ _. record { address = refl; kind = refl; writes = refl; quantity = refl })
    read_seed_of_kind n ModbusRegisterKind.input_register =
        called-IsMade
          (attributes_of address codec quantity description ModbusRegisterKind.input_register) false
          (some n)
          (validate_register_codec
            (attributes_of address codec quantity description ModbusRegisterKind.input_register))
          (λ _. ModbusParserSeed.read_inputs address n)
          (λ _. record { address = refl; kind = refl; writes = refl; quantity = refl })

  module _ (resource : String) (address : ℕ) (quantity : Option ℕ) (description : Option String)
      (value : ModbusValue) where
    coil_seed :
        (codec : ModbusValueCodec)
        → OnOk
            (IsMade
              (attributes_of address codec quantity description ModbusRegisterKind.coil)
              true
              none)
            (coil_write_seed rm builder resource
              (attributes_of address codec quantity description ModbusRegisterKind.coil)
              value)
    unfolding coil_write_seed generate
    coil_seed ModbusValueCodec.bool =
        called-IsMade
          (attributes_of address ModbusValueCodec.bool quantity description ModbusRegisterKind.coil)
          true none (decode_bool value) (λ v. ModbusParserSeed.write_single_coil address v)
          (λ _. record { address = refl; kind = refl; writes = refl; quantity = refl })
    coil_seed ModbusValueCodec.bits =
        called-IsMade
          (attributes_of address ModbusValueCodec.bits quantity description ModbusRegisterKind.coil)
          true none (decode_bits value) (λ v. ModbusParserSeed.write_multiple_coils address v)
          (λ _. record { address = refl; kind = refl; writes = refl; quantity = refl })
    coil_seed codec = tt

    holding_seed :
        (codec : ModbusValueCodec)
        → OnOk
            (IsMade
              (attributes_of address codec quantity description ModbusRegisterKind.holding_register)
              true
              none)
            (holding_write_seed rm builder resource
              (attributes_of address codec quantity description ModbusRegisterKind.holding_register)
              value)
    unfolding holding_write_seed generate
    holding_seed ModbusValueCodec.bool = tt
    holding_seed ModbusValueCodec.bits = tt
    holding_seed ModbusValueCodec.u16 =
        called-IsMade
          (attributes_of address ModbusValueCodec.u16 quantity description
            ModbusRegisterKind.holding_register)
          true none (decode_u16 value) (λ v. ModbusParserSeed.write_single_holding address v)
          (λ _. record { address = refl; kind = refl; writes = refl; quantity = refl })
    holding_seed ModbusValueCodec.i16 =
        called-IsMade
          (attributes_of address ModbusValueCodec.i16 quantity description
            ModbusRegisterKind.holding_register)
          true none (decode_u16 value) (λ v. ModbusParserSeed.write_single_holding address v)
          (λ _. record { address = refl; kind = refl; writes = refl; quantity = refl })
    holding_seed ModbusValueCodec.bytes =
        called-IsMade
          (attributes_of address ModbusValueCodec.bytes quantity description
            ModbusRegisterKind.holding_register)
          true none (decode_bytes value)
          (λ v. ModbusParserSeed.write_multiple_holdings_bytes address v)
          (λ _. record { address = refl; kind = refl; writes = refl; quantity = refl })
    holding_seed ModbusValueCodec.utf8_string =
        called-IsMade
          (attributes_of address ModbusValueCodec.utf8_string quantity description
            ModbusRegisterKind.holding_register)
          true none (decode_string value) (λ v. ModbusParserSeed.write_string address v)
          (λ _. record { address = refl; kind = refl; writes = refl; quantity = refl })
    holding_seed codec =
        called-IsMade
          (attributes_of address codec quantity description ModbusRegisterKind.holding_register)
          true none
          (words_from_payload
            (attributes_of address codec quantity description ModbusRegisterKind.holding_register)
            value)
          (λ v. ModbusParserSeed.write_multiple_holdings address v)
          (λ _. record { address = refl; kind = refl; writes = refl; quantity = refl })

    write_seed_of_kind :
        (codec : ModbusValueCodec) (kind : ModbusRegisterKind)
        → OnOk (IsMade (attributes_of address codec quantity description kind) true none) (
            write_seed rm builder resource
              (attributes_of address codec quantity description kind)
              value)
    unfolding write_seed
    write_seed_of_kind codec ModbusRegisterKind.coil = coil_seed codec
    write_seed_of_kind codec ModbusRegisterKind.holding_register = holding_seed codec
    write_seed_of_kind codec kind = tt

  pub read_seed-IsMade :
      (attributes : ModbusResourceAttributes) (n : ℕ)
      → OnOk (IsMade attributes false (some n)) (read_seed rm builder attributes n)
  read_seed-IsMade attributes n =
      read_seed_of_kind attributes.address attributes.codec attributes.quantity
        attributes.description n attributes.register_kind

  pub write_seed-IsMade :
      (resource : String) (attributes : ModbusResourceAttributes) (value : ModbusValue)
      → OnOk (IsMade attributes true none) (write_seed rm builder resource attributes value)
  write_seed-IsMade resource attributes value =
      write_seed_of_kind resource attributes.address attributes.quantity attributes.description
        value attributes.codec attributes.register_kind

pub OnOk-at : {A E : Type 0} (P : A → Type 0) (r : Result A E) (a : A) → OnOk P r → r ≡ ok a → P a
OnOk-at P r a p e = subst (OnOk P) e p
