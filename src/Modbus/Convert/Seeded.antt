-- ===== src/Modbus/Convert/Seeded.antt =====
-- What a built request holds, and that its seed makes its frame again.
use ferredge.Prelude.{
  ◌==◌, arith, zero, suc, sym, ◌∙◌, ap, subst, suc, ◌≡◌, refl, ℕ, Bool, true, false, String, Option,
  none, some, List, Result, ok, err, lookup, Result-cases, Option-cases, inl, inr,
}
use ferredge.Core.Payload.{PayloadValue}
use ferredge.Core.Device.{DeviceResource}
use ferredge.Bridge.Message.{RegisterAccessAction}
use ferredge.Modbus.Types.{
  ModbusProto, ModbusResourceAttributes, ModbusClientOptions, ModbusDevice, ModbusParserSeed,
  ModbusResponseDecoder, ModbusCommandConversionError, unknown_resource, ModbusRequest,
  ModbusNativePlan, options, proto,
}
use ferredge.Modbus.Rmodbus.{Rmodbus}
use ferredge.Modbus.Value.{modbus_value_from_payload}
use ferredge.Modbus.Convert.{
  ModbusValueCodec, ModbusRegisterKind, generate, encode_wire_frame, quantity_for_read,
  decoder_for_codec,
}
use ferredge.Modbus.Convert.Build.{
  read_seed, write_seed, finished_request, build_read_request, build_write_request, build_request,
  encode_ref,
}
use ferredge.Modbus.Convert.Seeds.{
  OnOk, OnOk-at, IsSeedOf, read_seed-IsMade, write_seed-IsMade, IsMade, OnOk-bind, attributes_of,
}

abbrev pub action_writes : RegisterAccessAction → Bool
action_writes RegisterAccessAction.read = false
action_writes RegisterAccessAction.write = true

-- The codec that a decoder reads.
abbrev pub codec_of_decoder : ModbusResponseDecoder → Option ModbusValueCodec
codec_of_decoder ModbusResponseDecoder.ack = none
codec_of_decoder ModbusResponseDecoder.bool = some ModbusValueCodec.bool
codec_of_decoder (ModbusResponseDecoder.bits _) = some ModbusValueCodec.bits
codec_of_decoder ModbusResponseDecoder.u16 = some ModbusValueCodec.u16
codec_of_decoder ModbusResponseDecoder.i16 = some ModbusValueCodec.i16
codec_of_decoder ModbusResponseDecoder.u32_be = some ModbusValueCodec.u32_be
codec_of_decoder ModbusResponseDecoder.u32_le = some ModbusValueCodec.u32_le
codec_of_decoder ModbusResponseDecoder.i32_be = some ModbusValueCodec.i32_be
codec_of_decoder ModbusResponseDecoder.i32_le = some ModbusValueCodec.i32_le
codec_of_decoder ModbusResponseDecoder.f32_be = some ModbusValueCodec.f32_be
codec_of_decoder ModbusResponseDecoder.f32_le = some ModbusValueCodec.f32_le
codec_of_decoder ModbusResponseDecoder.bytes = some ModbusValueCodec.bytes
codec_of_decoder ModbusResponseDecoder.utf8_string = some ModbusValueCodec.utf8_string

-- A decoder of bits counts as many as were asked for.
abbrev pub Counts : ModbusResponseDecoder → ℕ → Type 0
Counts (ModbusResponseDecoder.bits quantity) asked = quantity ≡ asked
Counts _ asked = Unit

-- The bits or registers of one value; raw bytes and text have no width of their own.
abbrev pub codec_width : ModbusValueCodec → Option ℕ
codec_width ModbusValueCodec.bool = some 1
codec_width ModbusValueCodec.bits = some 1
codec_width ModbusValueCodec.u16 = some 1
codec_width ModbusValueCodec.i16 = some 1
codec_width ModbusValueCodec.bytes = none
codec_width ModbusValueCodec.utf8_string = none
codec_width _ = some 2

-- What a read of the resource asks for: its quantity, or else the width of its codec.
abbrev pub asked_quantity : ModbusResourceAttributes → Option ℕ
asked_quantity attributes = elim attributes.quantity [
  | some quantity ↦ some quantity
  | none ↦ codec_width attributes.codec
]

abbrev pub asked_by : Bool → ModbusResourceAttributes → Option ℕ
asked_by true attributes = none
asked_by false attributes = asked_quantity attributes

-- A write is acknowledged; a read asks for at least one and is decoded by the resource's codec.
abbrev pub IsDecoderOf : ModbusResourceAttributes → Bool → ModbusResponseDecoder → Type 0
IsDecoderOf attributes true decoder = decoder ≡ ModbusResponseDecoder.ack
IsDecoderOf attributes false decoder =
    (n : ℕ) × (asked_quantity attributes ≡ some (suc n))
    × (codec_of_decoder decoder ≡ some attributes.codec)
    × Counts decoder (suc n)

abbrev IsAsked : ModbusResourceAttributes → ℕ → Type 0
IsAsked attributes quantity =
    (n : ℕ) × (quantity ≡ suc n) × (asked_quantity attributes ≡ some (suc n))

module _ (address : ℕ) (kind : ModbusRegisterKind) (description : Option String) where
  quantity_for_read-IsAsked :
      (quantity : Option ℕ) (codec : ModbusValueCodec)
      → OnOk
          (IsAsked (attributes_of address codec quantity description kind))
          (quantity_for_read (attributes_of address codec quantity description kind))
  unfolding quantity_for_read
  quantity_for_read-IsAsked (some zero) codec = tt
  quantity_for_read-IsAsked (some (suc n)) codec =
      let nonzero : (suc n == 0) ≡ false = ground arith in rw nonzero (n, refl, refl)
  quantity_for_read-IsAsked none ModbusValueCodec.bool = (0, refl, refl)
  quantity_for_read-IsAsked none ModbusValueCodec.bits = (0, refl, refl)
  quantity_for_read-IsAsked none ModbusValueCodec.u16 = (0, refl, refl)
  quantity_for_read-IsAsked none ModbusValueCodec.i16 = (0, refl, refl)
  quantity_for_read-IsAsked none ModbusValueCodec.bytes = tt
  quantity_for_read-IsAsked none ModbusValueCodec.utf8_string = tt
  quantity_for_read-IsAsked none codec = (1, refl, refl)

  decoder_for_codec-Counts :
      (quantity : Option ℕ) (n : ℕ) (codec : ModbusValueCodec)
      → (codec_of_decoder
            (decoder_for_codec (attributes_of address codec quantity description kind) n)
          ≡ some codec)
        × Counts (decoder_for_codec (attributes_of address codec quantity description kind) n) n
  unfolding decoder_for_codec
  decoder_for_codec-Counts quantity n ModbusValueCodec.bits = (refl, refl)
  decoder_for_codec-Counts quantity n codec = (refl, tt)

read-IsDecoderOf :
    (attributes : ModbusResourceAttributes) (quantity : ℕ)
    → quantity_for_read attributes ≡ ok quantity
    → IsDecoderOf attributes false (decoder_for_codec attributes quantity)
      × (some quantity ≡ asked_quantity attributes)
read-IsDecoderOf attributes quantity e =
    let (n, is_suc, asked) =
      OnOk-at (IsAsked attributes) _ quantity
        (quantity_for_read-IsAsked attributes.address attributes.register_kind
          attributes.description attributes.quantity attributes.codec)
        e in
    let (codec, counted) =
      decoder_for_codec-Counts attributes.address attributes.register_kind attributes.description
        attributes.quantity quantity attributes.codec in
    (
      (n, asked, codec, subst (Counts (decoder_for_codec attributes quantity)) is_suc counted),
      ap some is_suc ∙ sym asked,
    )

module _ (rm : Rmodbus) where
  -- The call that the seed records is the one that made the frame.
  abbrev pub Replays : ModbusRequest → Type 0
  Replays r =
      (parser : rm.Request) × (binary_frame : List ℕ) × (generate rm (rm.new r.unit_id r.proto)
          r.parser_seed
        ≡ ok (parser, binary_frame))
      × (encode_wire_frame rm r.proto binary_frame ≡ ok r.frame)

  pub record IsRequestOf (resource : String) (attributes : ModbusResourceAttributes) (writes : Bool)
      (proto' : ModbusProto) (options' : ModbusClientOptions) (r : ModbusRequest) : Type 0 where
    pub resource_kept : r.resource ≡ resource
    pub framing : r.proto ≡ proto'
    pub unit : r.unit_id ≡ options'.unit_id
    pub deadline : r.timeout ≡ options'.request_timeout
    pub writing : r.is_write ≡ writes
    pub seed : IsSeedOf attributes writes (asked_by writes attributes) r.parser_seed
    pub decoding : IsDecoderOf attributes writes r.decoder
    pub replays : Replays r

  finished_request-IsRequestOf :
      (resource : String) (attributes : ModbusResourceAttributes) (writes : Bool)
      (proto' : ModbusProto) (options' : ModbusClientOptions) (made : List ℕ × ModbusParserSeed)
      (decoder : ModbusResponseDecoder)
      → IsMade rm
          (rm.new options'.unit_id proto')
          attributes
          writes
          (asked_by writes attributes)
          made
      → IsDecoderOf attributes writes decoder
      → OnOk
          (IsRequestOf resource attributes writes proto' options')
          (finished_request rm resource writes proto' options' made decoder)
  unfolding finished_request
  finished_request-IsRequestOf resource attributes writes proto' options' (binary, seed) decoder
        (is_seed, (parser, call)) is_decoder =
      elim (Result-cases (encode_wire_frame rm proto' binary)) [
        | inl (frame, sent) ↦
            rw (finished_request, sent)
              (record {
                resource_kept = refl;
                framing = refl;
                unit = refl;
                deadline = refl;
                writing = refl;
                seed = is_seed;
                decoding = is_decoder;
                replays = (parser, binary, call, sent);
              })
        | inr (e, refused) ↦ rw (finished_request, refused) tt
      ]

  read-IsRequestOf :
      (resource : String) (attributes : ModbusResourceAttributes) (proto' : ModbusProto)
      (options' : ModbusClientOptions)
      → OnOk
          (IsRequestOf resource attributes false proto' options')
          (build_read_request rm resource attributes proto' options')
  unfolding build_read_request
  read-IsRequestOf resource attributes proto' options' =
      OnOk-bind _ (quantity_for_read attributes) _ (λ quantity e.
        let (decodes, asked) = read-IsDecoderOf attributes quantity e in
        OnOk-bind _ (read_seed rm (rm.new options'.unit_id proto') attributes quantity) _ (λ made s.
          finished_request-IsRequestOf resource attributes false proto' options' made _
            (subst (λ q. IsMade rm (rm.new options'.unit_id proto') attributes false q made) asked
              (OnOk-at (IsMade rm (rm.new options'.unit_id proto') attributes false (some quantity))
                _ made (read_seed-IsMade rm (rm.new options'.unit_id proto') attributes quantity)
                s))
            decodes))

  write-IsRequestOf :
      (resource : String) (attributes : ModbusResourceAttributes) (payload : PayloadValue)
      (proto' : ModbusProto) (options' : ModbusClientOptions)
      → OnOk
          (IsRequestOf resource attributes true proto' options')
          (build_write_request rm resource attributes payload proto' options')
  unfolding build_write_request
  write-IsRequestOf resource attributes payload proto' options' =
      OnOk-bind _ (modbus_value_from_payload attributes payload) _ (λ value e.
        OnOk-bind _ (write_seed rm (rm.new options'.unit_id proto') resource attributes value) _
          (λ made s.
            finished_request-IsRequestOf resource attributes true proto' options' made _
              (OnOk-at (IsMade rm (rm.new options'.unit_id proto') attributes true none) _ made
                (write_seed-IsMade rm (rm.new options'.unit_id proto') resource attributes value) s)
              refl))

  build_request-IsRequestOf :
      (action : RegisterAccessAction) (resource : String) (attributes : ModbusResourceAttributes)
      (payload : Option PayloadValue) (proto' : ModbusProto) (options' : ModbusClientOptions)
      → OnOk
          (IsRequestOf resource attributes (action_writes action) proto' options')
          (build_request rm action resource attributes payload proto' options')
  unfolding build_request
  build_request-IsRequestOf RegisterAccessAction.read resource attributes payload proto' options' =
      read-IsRequestOf resource attributes proto' options'
  build_request-IsRequestOf RegisterAccessAction.write resource attributes none proto' options' = tt
  build_request-IsRequestOf RegisterAccessAction.write resource attributes (some payload) proto'
        options' =
      write-IsRequestOf resource attributes payload proto' options'

  -- The answer to a planned access of a device's resource.
  abbrev pub IsAnswerFor :
      {P : Type 0}
      → ModbusDevice P
      → ModbusNativePlan
      → Option (DeviceResource ModbusResourceAttributes)
      → Result ModbusRequest ModbusCommandConversionError
      → Type 0
  IsAnswerFor device planned none answer = answer ≡ err (unknown_resource planned.resource)
  IsAnswerFor device planned (some found) answer =
      OnOk
        (IsRequestOf planned.resource found.resource_attributes (action_writes planned.action)
          (proto device.endpoint) (options device.endpoint))
        answer

  -- An unknown resource is refused by name. A request that is built has the resource, the device's
  -- framing, unit id and timeout; its seed is about the resource's address and register kind and
  -- writes exactly for a write; a write is answered by an acknowledgement; a read asks for the
  -- resource's quantity, or else the width of its codec, never zero, and its decoder is the one of
  -- the codec; and the call that `make_parser` repeats from the seed is the call that made the frame
  -- on the wire.
  pub encode_ref-IsAnswerFor :
      {P : Type 0} (device : ModbusDevice P) (planned : ModbusNativePlan)
      → IsAnswerFor device planned
          (lookup planned.resource device.resources)
          (encode_ref rm device planned)
  unfolding encode_ref
  encode_ref-IsAnswerFor device planned =
      elim (Option-cases (lookup planned.resource device.resources)) [
        | inl e ↦ rw (encode_ref, e) refl
        | inr (found, e) ↦
            rw (encode_ref, e)
              (build_request-IsRequestOf planned.action planned.resource found.resource_attributes
                planned.payload (proto device.endpoint) (options device.endpoint))
      ]

  IsAnswerFor-Replays :
      {P : Type 0} (device : ModbusDevice P) (planned : ModbusNativePlan)
      (found : Option (DeviceResource ModbusResourceAttributes)) (r : ModbusRequest)
      → IsAnswerFor device planned found (ok r)
      → Replays r
  IsAnswerFor-Replays device planned none r h = cc
  IsAnswerFor-Replays device planned (some found) r h = h.replays

  pub encode_ref-Replays :
      {P : Type 0} (device : ModbusDevice P) (planned : ModbusNativePlan) (r : ModbusRequest)
      → encode_ref rm device planned ≡ ok r
      → Replays r
  encode_ref-Replays device planned r built =
      IsAnswerFor-Replays device planned (lookup planned.resource device.resources) r (
        subst (IsAnswerFor device planned (lookup planned.resource device.resources)) built
          (encode_ref-IsAnswerFor device planned))
