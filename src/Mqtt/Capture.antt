-- ===== src/Mqtt/Capture.antt =====
-- crates/ferredge-proto-mqtt/src/meta.rs: the capture's keys and the values under them.
use ferredge.Prelude.{
  ℕ, Bool, String, str_eq, Option, none, some, List, [], ◌∷◌, Result, ok, err, ◌>>=◌, ok_or,
  collect, ltb, ◌==◌, ◌^◌, if◌then◌else◌,
}
use ferredge.Core.Meta.{MetaValue}
use ferredge.Core.Command.{DeliveryGuarantee}
use ferredge.Mqtt.Types.{
  MqttPayloadFormat, MqttRetainHandling, MqttCommandConversionError, invalid_extension_value,
  invalid_extension_name, invalid_extension_type,
}

-- The known capture keys.
pub data Key : Type 0 where
  topic qos retain duplicate packet_id content_type payload_format message_expiry_interval_secs :
      Key
  response_topic correlation_data topic_alias subscription_identifiers reason_codes : Key
  reason_string durable_name shared_group no_local retain_as_published retain_handling : Key

abbrev pub key_text : Key → String
key_text Key.topic = "topic"
key_text Key.qos = "qos"
key_text Key.retain = "retain"
key_text Key.duplicate = "duplicate"
key_text Key.packet_id = "packet-id"
key_text Key.content_type = "content-type"
key_text Key.payload_format = "payload-format"
key_text Key.message_expiry_interval_secs = "message-expiry-interval-secs"
key_text Key.response_topic = "response-topic"
key_text Key.correlation_data = "correlation-data"
key_text Key.topic_alias = "topic-alias"
key_text Key.subscription_identifiers = "subscription-identifiers"
key_text Key.reason_codes = "reason-codes"
key_text Key.reason_string = "reason-string"
key_text Key.durable_name = "durable-name"
key_text Key.shared_group = "shared-group"
key_text Key.no_local = "no-local"
key_text Key.retain_as_published = "retain-as-published"
key_text Key.retain_handling = "retain-handling"

abbrev pub all_keys : List Key
all_keys =
    Key.topic ∷ Key.qos ∷ Key.retain ∷ Key.duplicate ∷ Key.packet_id ∷ Key.content_type
    ∷ Key.payload_format ∷ Key.message_expiry_interval_secs ∷ Key.response_topic
    ∷ Key.correlation_data ∷ Key.topic_alias ∷ Key.subscription_identifiers ∷ Key.reason_codes
    ∷ Key.reason_string ∷ Key.durable_name ∷ Key.shared_group ∷ Key.no_local
    ∷ Key.retain_as_published ∷ Key.retain_handling ∷ []

abbrev pub find_key : List Key → String → Option Key
find_key [] text = none
find_key (key ∷ keys) text = if str_eq text (key_text key) then some key else find_key keys text

-- The constant that a `match key.as_ref()` finds.
unfoldable pub key_of : String → Option Key
key_of text = find_key all_keys text

unfoldable pub qos_from_delivery : DeliveryGuarantee → ℕ
qos_from_delivery DeliveryGuarantee.best_effort = 0
qos_from_delivery DeliveryGuarantee.at_least_once = 1
qos_from_delivery DeliveryGuarantee.exactly_once = 2

abbrev pub mqtt_payload_format_name : MqttPayloadFormat → String
mqtt_payload_format_name MqttPayloadFormat.bytes = "bytes"
mqtt_payload_format_name MqttPayloadFormat.utf8 = "utf8"

unfoldable pub mqtt_payload_format_from_name : String → Option MqttPayloadFormat
mqtt_payload_format_from_name value =
    if str_eq value "bytes"
    then some MqttPayloadFormat.bytes
    else if str_eq value "utf8"
    then some MqttPayloadFormat.utf8
    else none

abbrev pub retain_handling_code : MqttRetainHandling → ℕ
retain_handling_code MqttRetainHandling.send_retained = 0
retain_handling_code MqttRetainHandling.send_retained_if_not_exists = 1
retain_handling_code MqttRetainHandling.do_not_send_retained = 2

unfoldable pub retain_handling_from_code : ℕ → Option MqttRetainHandling
retain_handling_from_code value =
    if value == 0
    then some MqttRetainHandling.send_retained
    else if value == 1
    then some MqttRetainHandling.send_retained_if_not_exists
    else if value == 2
    then some MqttRetainHandling.do_not_send_retained
    else none

unfoldable pub expect_str : Key → MetaValue → Result String MqttCommandConversionError
expect_str key (MetaValue.str value) = ok value
expect_str key _ = err (invalid_extension_type (key_text key))

unfoldable pub expect_u64 : Key → MetaValue → Result ℕ MqttCommandConversionError
expect_u64 key (MetaValue.u64 value) = ok value
expect_u64 key _ = err (invalid_extension_type (key_text key))

unfoldable pub expect_bool : Key → MetaValue → Result Bool MqttCommandConversionError
expect_bool key (MetaValue.bool value) = ok value
expect_bool key _ = err (invalid_extension_type (key_text key))

unfoldable pub expect_bytes : Key → MetaValue → Result (List ℕ) MqttCommandConversionError
expect_bytes key (MetaValue.bytes value) = ok value
expect_bytes key _ = err (invalid_extension_type (key_text key))

unfoldable pub expect_u64_list : Key → MetaValue → Result (List ℕ) MqttCommandConversionError
expect_u64_list key (MetaValue.u64_list values) = ok values
expect_u64_list key _ = err (invalid_extension_type (key_text key))

unfoldable pub expect_str_list : Key → MetaValue → Result (List String) MqttCommandConversionError
expect_str_list key (MetaValue.str_list values) = ok values
expect_str_list key _ = err (invalid_extension_type (key_text key))

-- `T::try_from(value)` for an unsigned integer type of `bits` bits.
unfoldable pub checked_capture_value : ℕ → Key → ℕ → Result ℕ MqttCommandConversionError
checked_capture_value bits key value =
    if ltb value (2 ^ bits) then ok value else err (invalid_extension_value (key_text key) value)

unfoldable pub expect_uint : ℕ → Key → MetaValue → Result ℕ MqttCommandConversionError
unfolding expect_u64 checked_capture_value
expect_uint bits key value = expect_u64 key value >>= checked_capture_value bits key

unfoldable pub expect_payload_format :
    MetaValue → Result MqttPayloadFormat MqttCommandConversionError
unfolding expect_str mqtt_payload_format_from_name
expect_payload_format value = do
  name ← expect_str Key.payload_format value
  ok_or (mqtt_payload_format_from_name name)
      (invalid_extension_name (key_text Key.payload_format) name)

unfoldable pub expect_identifiers : MetaValue → Result (List ℕ) MqttCommandConversionError
unfolding expect_u64_list checked_capture_value collect
expect_identifiers value = do
  values ← expect_u64_list Key.subscription_identifiers value
  collect (checked_capture_value 32 Key.subscription_identifiers) values

unfoldable pub expect_retain_handling :
    MetaValue → Result MqttRetainHandling MqttCommandConversionError
unfolding expect_u64 retain_handling_from_code
expect_retain_handling value = do
  code ← expect_u64 Key.retain_handling value
  ok_or (retain_handling_from_code code)
      (invalid_extension_value (key_text Key.retain_handling) code)
