-- ===== src/Mqtt/Meta.antt =====
-- crates/ferredge-proto-mqtt/src/meta.rs: `MqttMeta` from a transport capture.
pub mod Into
pub mod Carried
pub mod RoundTrip
pub mod Field
use ferredge.Prelude.{
  false, String, str_eq, Option, none, some, List, [], ◌∷◌, ◌++◌, Result, ok, err, ◌>>=◌, map_ok,
  ok_option, true, if◌then◌else◌,
}
use ferredge.Core.Protocol
use ferredge.Core.Meta
use ferredge.Core.Meta.Fields.{contains}
use ferredge.Core.Meta.{MetaValue, Entries, TransportMeta}
use ferredge.Mqtt.Types.{MqttMeta, MqttCommandConversionError, foreign_extensions}
use ferredge.Mqtt.Capture.{
  Key, key_of, expect_str, expect_uint, expect_bool, expect_bytes, expect_str_list,
  expect_payload_format, expect_identifiers, expect_retain_handling,
}

unfoldable pub default : MqttMeta
default = record {
  topic = none;
  qos = none;
  retain = false;
  duplicate = false;
  packet_id = none;
  content_type = none;
  payload_format = none;
  message_expiry_interval_secs = none;
  response_topic = none;
  correlation_data = none;
  topic_alias = none;
  subscription_identifiers = [];
  reason_codes = [];
  reason_string = none;
  durable_name = none;
  shared_group = none;
  no_local = false;
  retain_as_published = false;
  retain_handling = none;
  headers = none;
}

-- The arms of the `match key.as_ref()`.
unfoldable pub decode_known :
    MqttMeta → Key → MetaValue → Result MqttMeta MqttCommandConversionError
unfolding expect_str expect_bool expect_bytes expect_str_list expect_uint expect_payload_format
    expect_identifiers expect_retain_handling
decode_known view Key.topic value =
    map_ok (λ v. record view { topic = some v }) (expect_str Key.topic value)
decode_known view Key.qos value =
    map_ok (λ v. record view { qos = some v }) (expect_uint 8 Key.qos value)
decode_known view Key.retain value =
    map_ok (λ v. record view { retain = v }) (expect_bool Key.retain value)
decode_known view Key.duplicate value =
    map_ok (λ v. record view { duplicate = v }) (expect_bool Key.duplicate value)
decode_known view Key.packet_id value =
    map_ok (λ v. record view { packet_id = some v }) (expect_uint 16 Key.packet_id value)
decode_known view Key.content_type value =
    map_ok (λ v. record view { content_type = some v }) (expect_str Key.content_type value)
decode_known view Key.payload_format value =
    map_ok (λ v. record view { payload_format = some v }) (expect_payload_format value)
decode_known view Key.message_expiry_interval_secs value =
    map_ok (λ v. record view { message_expiry_interval_secs = some v })
      (expect_uint 32 Key.message_expiry_interval_secs value)
decode_known view Key.response_topic value =
    map_ok (λ v. record view { response_topic = some v }) (expect_str Key.response_topic value)
decode_known view Key.correlation_data value =
    map_ok (λ v. record view { correlation_data = some v })
      (expect_bytes Key.correlation_data value)
decode_known view Key.topic_alias value =
    map_ok (λ v. record view { topic_alias = some v }) (expect_uint 16 Key.topic_alias value)
decode_known view Key.subscription_identifiers value =
    map_ok (λ v. record view { subscription_identifiers = v }) (expect_identifiers value)
decode_known view Key.reason_codes value =
    map_ok (λ v. record view { reason_codes = v }) (expect_str_list Key.reason_codes value)
decode_known view Key.reason_string value =
    map_ok (λ v. record view { reason_string = some v }) (expect_str Key.reason_string value)
decode_known view Key.durable_name value =
    map_ok (λ v. record view { durable_name = some v }) (expect_str Key.durable_name value)
decode_known view Key.shared_group value =
    map_ok (λ v. record view { shared_group = some v }) (expect_str Key.shared_group value)
decode_known view Key.no_local value =
    map_ok (λ v. record view { no_local = v }) (expect_bool Key.no_local value)
decode_known view Key.retain_as_published value =
    map_ok (λ v. record view { retain_as_published = v })
      (expect_bool Key.retain_as_published value)
decode_known view Key.retain_handling value =
    map_ok (λ v. record view { retain_handling = some v }) (expect_retain_handling value)

unfoldable pub decode_entry :
    MqttMeta → String → MetaValue → Result MqttMeta MqttCommandConversionError
unfolding decode_known key_of
decode_entry view key value = elim (key_of key) [
  | none ↦ ok view
  | some known ↦ decode_known view known value
]

-- The loop over the entries: a key met before is skipped.
unfoldable pub decode_entries :
    List String → MqttMeta → Entries → Result MqttMeta MqttCommandConversionError
unfolding contains decode_entry
decode_entries seen view [] = ok view
decode_entries seen view ((key, value) ∷ entries) = elim (contains seen key) [
  | true ↦ decode_entries seen view entries
  | false ↦ decode_entry view key value >>= λ view'. decode_entries (seen ++ key ∷ []) view' entries
]

unfoldable pub try_from_transport_meta : TransportMeta → Result MqttMeta MqttCommandConversionError
unfolding decode_entries default
try_from_transport_meta meta =
    if str_eq meta.protocol Protocol.mqtt
    then decode_entries [] (record default { headers = meta.headers }) meta.entries
    else err (foreign_extensions meta.protocol)

unfoldable pub from_transport_meta : TransportMeta → Option MqttMeta
unfolding try_from_transport_meta
from_transport_meta meta = ok_option (try_from_transport_meta meta)

unfoldable pub view : TransportMeta → Option MqttMeta
unfolding try_from_transport_meta Meta.as_borrowed
view meta = ok_option (try_from_transport_meta (Meta.as_borrowed meta))
