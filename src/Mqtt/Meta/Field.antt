-- ===== src/Mqtt/Meta/Field.antt =====
-- One field of `MqttMeta` at a time: what is stored for it, and what decoding that gives.
use ferredge.Prelude.{
  ℕ, ◌≡◌, refl, ap, ◌<◌, ◌^◌, Bool, true, false, not, Option, none, some, List, [], ◌∷◌, Result, ok,
  map_option, then_some, is_empty, lt→ltb, All, collect, map_ok,
}
use ferredge.Core.Meta.{MetaValue}
use ferredge.Mqtt.Types.{
  MqttMeta, MqttPayloadFormat, MqttRetainHandling, MqttCommandConversionError,
}
use ferredge.Mqtt.Capture.{
  Key, key_of, key_text, mqtt_payload_format_name, retain_handling_code, checked_capture_value,
  expect_uint, expect_identifiers,
}
use ferredge.Mqtt.Meta.{decode_known}
use ferredge.Mqtt.Meta.Into.{text, number, flag}

abbrev pub value_of : MqttMeta → Key → Option MetaValue
value_of m Key.topic = text m.topic
value_of m Key.qos = number m.qos
value_of m Key.retain = flag m.retain
value_of m Key.duplicate = flag m.duplicate
value_of m Key.packet_id = number m.packet_id
value_of m Key.content_type = text m.content_type
value_of m Key.payload_format = text (map_option mqtt_payload_format_name m.payload_format)
value_of m Key.message_expiry_interval_secs = number m.message_expiry_interval_secs
value_of m Key.response_topic = text m.response_topic
value_of m Key.correlation_data = map_option MetaValue.bytes m.correlation_data
value_of m Key.topic_alias = number m.topic_alias
value_of m Key.subscription_identifiers =
    then_some (not (is_empty m.subscription_identifiers))
      (MetaValue.u64_list m.subscription_identifiers)
value_of m Key.reason_codes =
    then_some (not (is_empty m.reason_codes)) (MetaValue.str_list m.reason_codes)
value_of m Key.reason_string = text m.reason_string
value_of m Key.durable_name = text m.durable_name
value_of m Key.shared_group = text m.shared_group
value_of m Key.no_local = flag m.no_local
value_of m Key.retain_as_published = flag m.retain_as_published
value_of m Key.retain_handling = number (map_option retain_handling_code m.retain_handling)

-- The view with the field taken from another.
abbrev pub take_field : MqttMeta → MqttMeta → Key → MqttMeta
take_field m view Key.topic = record view { topic = m.topic }
take_field m view Key.qos = record view { qos = m.qos }
take_field m view Key.retain = record view { retain = m.retain }
take_field m view Key.duplicate = record view { duplicate = m.duplicate }
take_field m view Key.packet_id = record view { packet_id = m.packet_id }
take_field m view Key.content_type = record view { content_type = m.content_type }
take_field m view Key.payload_format = record view { payload_format = m.payload_format }
take_field m view Key.message_expiry_interval_secs = record view {
  message_expiry_interval_secs = m.message_expiry_interval_secs;
}
take_field m view Key.response_topic = record view { response_topic = m.response_topic }
take_field m view Key.correlation_data = record view { correlation_data = m.correlation_data }
take_field m view Key.topic_alias = record view { topic_alias = m.topic_alias }
take_field m view Key.subscription_identifiers = record view {
  subscription_identifiers = m.subscription_identifiers;
}
take_field m view Key.reason_codes = record view { reason_codes = m.reason_codes }
take_field m view Key.reason_string = record view { reason_string = m.reason_string }
take_field m view Key.durable_name = record view { durable_name = m.durable_name }
take_field m view Key.shared_group = record view { shared_group = m.shared_group }
take_field m view Key.no_local = record view { no_local = m.no_local }
take_field m view Key.retain_as_published = record view {
  retain_as_published = m.retain_as_published;
}
take_field m view Key.retain_handling = record view { retain_handling = m.retain_handling }

abbrev pub IsBlank : MqttMeta → Key → Type 0
IsBlank view Key.topic = view.topic ≡ none
IsBlank view Key.qos = view.qos ≡ none
IsBlank view Key.retain = view.retain ≡ false
IsBlank view Key.duplicate = view.duplicate ≡ false
IsBlank view Key.packet_id = view.packet_id ≡ none
IsBlank view Key.content_type = view.content_type ≡ none
IsBlank view Key.payload_format = view.payload_format ≡ none
IsBlank view Key.message_expiry_interval_secs = view.message_expiry_interval_secs ≡ none
IsBlank view Key.response_topic = view.response_topic ≡ none
IsBlank view Key.correlation_data = view.correlation_data ≡ none
IsBlank view Key.topic_alias = view.topic_alias ≡ none
IsBlank view Key.subscription_identifiers = view.subscription_identifiers ≡ []
IsBlank view Key.reason_codes = view.reason_codes ≡ []
IsBlank view Key.reason_string = view.reason_string ≡ none
IsBlank view Key.durable_name = view.durable_name ≡ none
IsBlank view Key.shared_group = view.shared_group ≡ none
IsBlank view Key.no_local = view.no_local ≡ false
IsBlank view Key.retain_as_published = view.retain_as_published ≡ false
IsBlank view Key.retain_handling = view.retain_handling ≡ none

-- The numbers fit their types: `u8`, `u16` and `u32`.
pub record IsSized (m : MqttMeta) : Type 0 where
  pub qos_fits : (n : ℕ) → m.qos ≡ some n → n < 2 ^ 8
  pub packet_id_fits : (n : ℕ) → m.packet_id ≡ some n → n < 2 ^ 16
  pub message_expiry_interval_secs_fits :
      (n : ℕ) → m.message_expiry_interval_secs ≡ some n → n < 2 ^ 32
  pub topic_alias_fits : (n : ℕ) → m.topic_alias ≡ some n → n < 2 ^ 16
  pub subscription_identifiers_fit : All (λ n. n < 2 ^ 32) m.subscription_identifiers

pub key_of-key_text : (key : Key) → key_of (key_text key) ≡ some key
unfolding key_of
key_of-key_text Key.topic = refl
key_of-key_text Key.qos = refl
key_of-key_text Key.retain = refl
key_of-key_text Key.duplicate = refl
key_of-key_text Key.packet_id = refl
key_of-key_text Key.content_type = refl
key_of-key_text Key.payload_format = refl
key_of-key_text Key.message_expiry_interval_secs = refl
key_of-key_text Key.response_topic = refl
key_of-key_text Key.correlation_data = refl
key_of-key_text Key.topic_alias = refl
key_of-key_text Key.subscription_identifiers = refl
key_of-key_text Key.reason_codes = refl
key_of-key_text Key.reason_string = refl
key_of-key_text Key.durable_name = refl
key_of-key_text Key.shared_group = refl
key_of-key_text Key.no_local = refl
key_of-key_text Key.retain_as_published = refl
key_of-key_text Key.retain_handling = refl

abbrev pub decode_field :
    MqttMeta → Key → Option MetaValue → Result MqttMeta MqttCommandConversionError
decode_field view key none = ok view
decode_field view key (some value) = decode_known view key value

module _ (view : MqttMeta) (key : Key) where
  decode_optional :
      {A : Type 0} (wrap : A → MetaValue) (put : Option A → MqttMeta) (o : Option A)
      → view ≡ put none
      → ((a : A) → o ≡ some a → decode_known view key (wrap a) ≡ ok (put (some a)))
      → decode_field view key (map_option wrap o) ≡ ok (put o)
  decode_optional wrap put none absent present = ap ok absent
  decode_optional wrap put (some a) absent present = present a refl

  decode_flag :
      (put : Bool → MqttMeta) (b : Bool)
      → view ≡ put false
      → decode_known view key (MetaValue.bool true) ≡ ok (put true)
      → decode_field view key (flag b) ≡ ok (put b)
  decode_flag put false absent present = ap ok absent
  decode_flag put true absent present = present

  decode_list :
      {A : Type 0} (wrap : List A → MetaValue) (put : List A → MqttMeta) (xs : List A)
      → view ≡ put []
      → decode_known view key (wrap xs) ≡ ok (put xs)
      → decode_field view key (then_some (not (is_empty xs)) (wrap xs)) ≡ ok (put xs)
  decode_list wrap put [] absent present = ap ok absent
  decode_list wrap put (x ∷ xs) absent present = present

expect_uint-fits :
    (bits : ℕ) (key : Key) (n : ℕ) → n < 2 ^ bits → expect_uint bits key (MetaValue.u64 n) ≡ ok n
unfolding expect_uint
expect_uint-fits bits key n h = rw (lt→ltb n (2 ^ bits) h) refl

collect-fits :
    (values : List ℕ)
    → All (λ n. n < 2 ^ 32) values
    → collect (checked_capture_value 32 Key.subscription_identifiers) values ≡ ok values
unfolding collect checked_capture_value
collect-fits [] h = refl
collect-fits (n ∷ values) (h, hs) = rw (lt→ltb n (2 ^ 32) h) (rw (collect-fits values hs) refl)

expect_identifiers-fits :
    (values : List ℕ)
    → All (λ n. n < 2 ^ 32) values
    → expect_identifiers (MetaValue.u64_list values) ≡ ok values
unfolding expect_identifiers
expect_identifiers-fits values h = collect-fits values h

format_field :
    (view : MqttMeta) (o : Option MqttPayloadFormat)
    → view.payload_format ≡ none
    → decode_field view Key.payload_format (text (map_option mqtt_payload_format_name o))
      ≡ ok (record view { payload_format = o })
unfolding decode_known
format_field view none b = λ i. ok (record view { payload_format = b i })
format_field view (some MqttPayloadFormat.bytes) b = refl
format_field view (some MqttPayloadFormat.utf8) b = refl

handling_field :
    (view : MqttMeta) (o : Option MqttRetainHandling)
    → view.retain_handling ≡ none
    → decode_field view Key.retain_handling (number (map_option retain_handling_code o))
      ≡ ok (record view { retain_handling = o })
unfolding decode_known
handling_field view none b = λ i. ok (record view { retain_handling = b i })
handling_field view (some MqttRetainHandling.send_retained) b = refl
handling_field view (some MqttRetainHandling.send_retained_if_not_exists) b = refl
handling_field view (some MqttRetainHandling.do_not_send_retained) b = refl

pub decode_field-take_field :
    (m view : MqttMeta) (key : Key)
    → IsSized m
    → IsBlank view key
    → decode_field view key (value_of m key) ≡ ok (take_field m view key)
unfolding decode_known
decode_field-take_field m view Key.topic s b =
    decode_optional view Key.topic MetaValue.str (λ v. record view { topic = v }) m.topic
      (λ i. record view { topic = b i }) (λ a e. refl)
decode_field-take_field m view Key.qos s b =
    decode_optional view Key.qos MetaValue.u64 (λ v. record view { qos = v }) m.qos
      (λ i. record view { qos = b i })
      (λ a e.
        ap (map_ok (λ v. record view { qos = some v }))
          (expect_uint-fits 8 Key.qos a (s.qos_fits a e)))
decode_field-take_field m view Key.retain s b =
    decode_flag view Key.retain (λ v. record view { retain = v }) m.retain
      (λ i. record view { retain = b i }) refl
decode_field-take_field m view Key.duplicate s b =
    decode_flag view Key.duplicate (λ v. record view { duplicate = v }) m.duplicate
      (λ i. record view { duplicate = b i }) refl
decode_field-take_field m view Key.packet_id s b =
    decode_optional view Key.packet_id MetaValue.u64 (λ v. record view { packet_id = v })
      m.packet_id (λ i. record view { packet_id = b i })
      (λ a e.
        ap (map_ok (λ v. record view { packet_id = some v }))
          (expect_uint-fits 16 Key.packet_id a (s.packet_id_fits a e)))
decode_field-take_field m view Key.content_type s b =
    decode_optional view Key.content_type MetaValue.str (λ v. record view { content_type = v })
      m.content_type (λ i. record view { content_type = b i }) (λ a e. refl)
decode_field-take_field m view Key.payload_format s b = format_field view m.payload_format b
decode_field-take_field m view Key.message_expiry_interval_secs s b =
    decode_optional view Key.message_expiry_interval_secs MetaValue.u64
      (λ v. record view { message_expiry_interval_secs = v }) m.message_expiry_interval_secs
      (λ i. record view { message_expiry_interval_secs = b i })
      (λ a e. ap (map_ok (λ v. record view { message_expiry_interval_secs = some v })) (
        expect_uint-fits 32 Key.message_expiry_interval_secs a
          (s.message_expiry_interval_secs_fits a e)))
decode_field-take_field m view Key.response_topic s b =
    decode_optional view Key.response_topic MetaValue.str (λ v. record view { response_topic = v })
      m.response_topic (λ i. record view { response_topic = b i }) (λ a e. refl)
decode_field-take_field m view Key.correlation_data s b =
    decode_optional view Key.correlation_data MetaValue.bytes
      (λ v. record view { correlation_data = v }) m.correlation_data
      (λ i. record view { correlation_data = b i }) (λ a e. refl)
decode_field-take_field m view Key.topic_alias s b =
    decode_optional view Key.topic_alias MetaValue.u64 (λ v. record view { topic_alias = v })
      m.topic_alias (λ i. record view { topic_alias = b i })
      (λ a e.
        ap (map_ok (λ v. record view { topic_alias = some v }))
          (expect_uint-fits 16 Key.topic_alias a (s.topic_alias_fits a e)))
decode_field-take_field m view Key.subscription_identifiers s b =
    decode_list view Key.subscription_identifiers MetaValue.u64_list
      (λ v. record view { subscription_identifiers = v }) m.subscription_identifiers
      (λ i. record view { subscription_identifiers = b i })
      (ap (map_ok (λ v. record view { subscription_identifiers = v }))
        (expect_identifiers-fits m.subscription_identifiers s.subscription_identifiers_fit))
decode_field-take_field m view Key.reason_codes s b =
    decode_list view Key.reason_codes MetaValue.str_list (λ v. record view { reason_codes = v })
      m.reason_codes (λ i. record view { reason_codes = b i }) refl
decode_field-take_field m view Key.reason_string s b =
    decode_optional view Key.reason_string MetaValue.str (λ v. record view { reason_string = v })
      m.reason_string (λ i. record view { reason_string = b i }) (λ a e. refl)
decode_field-take_field m view Key.durable_name s b =
    decode_optional view Key.durable_name MetaValue.str (λ v. record view { durable_name = v })
      m.durable_name (λ i. record view { durable_name = b i }) (λ a e. refl)
decode_field-take_field m view Key.shared_group s b =
    decode_optional view Key.shared_group MetaValue.str (λ v. record view { shared_group = v })
      m.shared_group (λ i. record view { shared_group = b i }) (λ a e. refl)
decode_field-take_field m view Key.no_local s b =
    decode_flag view Key.no_local (λ v. record view { no_local = v }) m.no_local
      (λ i. record view { no_local = b i }) refl
decode_field-take_field m view Key.retain_as_published s b =
    decode_flag view Key.retain_as_published (λ v. record view { retain_as_published = v })
      m.retain_as_published (λ i. record view { retain_as_published = b i }) refl
decode_field-take_field m view Key.retain_handling s b = handling_field view m.retain_handling b
