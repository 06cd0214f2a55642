-- ===== src/Mqtt/Meta/Into.antt =====
-- crates/ferredge-proto-mqtt/src/meta.rs: `MqttMeta` and the two option sets as transport captures.
use ferredge.Prelude.{
  Bool, true, not, String, Option, none, some, List, [], ◌∷◌, is_empty, then_some, map_option, ℕ,
}
use ferredge.Core.Protocol
use ferredge.Core.Headers.{Headers, from_pairs}
use ferredge.Core.Meta
use ferredge.Core.Meta.{MetaValue, TransportMeta}
use ferredge.Mqtt.Types.{MqttMeta, MqttMessageOptions, MqttSubscriptionOptions}
use ferredge.Mqtt.Capture.{Key, key_text, mqtt_payload_format_name, retain_handling_code}

-- The keys in the order in which they are set, each with the value stored if its test holds.
abbrev pub Fields : Type 0
Fields = List (Key × Option MetaValue)

abbrev pub set_field : Key → Option MetaValue → TransportMeta → TransportMeta
set_field key none meta = meta
set_field key (some value) meta = Meta.set meta (key_text key) value

unfoldable pub set_fields : Fields → TransportMeta → TransportMeta
unfolding Meta.set
set_fields [] meta = meta
set_fields ((key, value) ∷ fields) meta = set_fields fields (set_field key value meta)

abbrev pub text : Option String → Option MetaValue
text value = map_option MetaValue.str value

abbrev pub number : Option ℕ → Option MetaValue
number value = map_option MetaValue.u64 value

abbrev pub flag : Bool → Option MetaValue
flag value = then_some value (MetaValue.bool true)

abbrev pub fields_of : MqttMeta → Fields
fields_of view =
    (Key.topic, text view.topic)
    ∷ (Key.qos, number view.qos)
    ∷ (Key.retain, flag view.retain)
    ∷ (Key.duplicate, flag view.duplicate)
    ∷ (Key.packet_id, number view.packet_id)
    ∷ (Key.content_type, text view.content_type)
    ∷ (Key.payload_format, text (map_option mqtt_payload_format_name view.payload_format))
    ∷ (Key.message_expiry_interval_secs, number view.message_expiry_interval_secs)
    ∷ (Key.response_topic, text view.response_topic)
    ∷ (Key.correlation_data, map_option MetaValue.bytes view.correlation_data)
    ∷ (Key.topic_alias, number view.topic_alias)
    ∷ (
      Key.subscription_identifiers,
      then_some (not (is_empty view.subscription_identifiers))
          (MetaValue.u64_list view.subscription_identifiers),
    )
    ∷ (
      Key.reason_codes,
      then_some (not (is_empty view.reason_codes)) (MetaValue.str_list view.reason_codes),
    )
    ∷ (Key.reason_string, text view.reason_string)
    ∷ (Key.durable_name, text view.durable_name)
    ∷ (Key.shared_group, text view.shared_group)
    ∷ (Key.no_local, flag view.no_local)
    ∷ (Key.retain_as_published, flag view.retain_as_published)
    ∷ (Key.retain_handling, number (map_option retain_handling_code view.retain_handling))
    ∷ []

unfoldable pub into_transport_meta : MqttMeta → TransportMeta
unfolding set_fields Meta.new
into_transport_meta view = record (set_fields (fields_of view) (Meta.new Protocol.mqtt)) {
  headers = view.headers;
}

abbrev user_headers : List (String × String) → Option Headers
user_headers user_properties =
    then_some (not (is_empty user_properties)) (from_pairs user_properties)

-- `MqttMessageOptions::into_transport_meta`.
unfoldable pub message_options_meta : MqttMessageOptions → TransportMeta
unfolding set_fields Meta.new from_pairs
message_options_meta options =
    record (set_fields
      ((Key.retain, flag options.retain)
        ∷ (Key.payload_format, text (map_option mqtt_payload_format_name options.payload_format))
        ∷ (Key.content_type, text options.content_type)
        ∷ (Key.message_expiry_interval_secs, number options.message_expiry_interval_secs)
        ∷ (Key.topic_alias, number options.topic_alias)
        ∷ (Key.response_topic, text options.response_topic)
        ∷ (Key.correlation_data, map_option MetaValue.bytes options.correlation_data)
        ∷ [])
      (Meta.new Protocol.mqtt)) { headers = user_headers options.user_properties }

-- `MqttSubscriptionOptions::into_transport_meta`.
unfoldable pub subscription_options_meta : MqttSubscriptionOptions → TransportMeta
unfolding set_fields Meta.new from_pairs
subscription_options_meta options =
    record (set_fields
      ((Key.no_local, flag options.no_local)
        ∷ (Key.retain_as_published, flag options.retain_as_published)
        ∷ (Key.retain_handling, number (map_option retain_handling_code options.retain_handling))
        ∷ (
          Key.subscription_identifiers,
          map_option (λ (identifier : ℕ). MetaValue.u64_list (identifier ∷ []))
              options.subscription_identifier,
        )
        ∷ [])
      (Meta.new Protocol.mqtt)) { headers = user_headers options.user_properties }
