-- ===== src/Mqtt/Types.antt =====
-- crates/ferredge-proto-mqtt/src: the types of types.rs, endpoint.rs and meta.rs, and the choice of
-- the protocol version.
use ferredge.Prelude.{
  ℕ, Bool, true, false, ◌||◌, String, Option, List, [], ◌∷◌, is_empty, if◌then◌else◌,
}
use ferredge.Core.Protocol.{ProtocolId}
use ferredge.Core.Headers.{Headers}
use ferredge.Core.Payload.{PayloadValue}
use ferredge.Core.Route.{Address}
use ferredge.Core.Command.{DeliveryGuarantee, BrokerChannelKind}
use ferredge.Core.Device.{Device}
use ferredge.Core.Backoff.{BrokerReconnectConfig}
use ferredge.Bridge.Message.{BridgePlannerError}
use ferredge.Mqtt.Package.{
  V5Publish, V3Publish, V5Subscribe, V3Subscribe, V5Unsubscribe, V3Unsubscribe,
}

pub data MqttPayloadFormat : Type 0 where
  bytes utf8 : MqttPayloadFormat

pub data MqttRetainHandling : Type 0 where
  send_retained send_retained_if_not_exists do_not_send_retained : MqttRetainHandling

pub record MqttMeta : Type 0 where
  pub topic : Option String
  pub qos : Option ℕ
  pub retain : Bool
  pub duplicate : Bool
  pub packet_id : Option ℕ
  pub content_type : Option String
  pub payload_format : Option MqttPayloadFormat
  pub message_expiry_interval_secs : Option ℕ
  pub response_topic : Option String
  pub correlation_data : Option (List ℕ)
  pub topic_alias : Option ℕ
  pub subscription_identifiers : List ℕ
  pub reason_codes : List String
  pub reason_string : Option String
  pub durable_name : Option String
  pub shared_group : Option String
  pub no_local : Bool
  pub retain_as_published : Bool
  pub retain_handling : Option MqttRetainHandling
  pub headers : Option Headers

pub record MqttMessageOptions : Type 0 where
  pub retain : Bool
  pub payload_format : Option MqttPayloadFormat
  pub content_type : Option String
  pub message_expiry_interval_secs : Option ℕ
  pub topic_alias : Option ℕ
  pub user_properties : List (String × String)
  pub response_topic : Option String
  pub correlation_data : Option (List ℕ)

pub record MqttSubscriptionOptions : Type 0 where
  pub no_local : Bool
  pub retain_as_published : Bool
  pub retain_handling : Option MqttRetainHandling
  pub subscription_identifier : Option ℕ
  pub user_properties : List (String × String)

-- The fields of the three variants of `MqttNativePlan`.
pub record PublishPlan : Type 0 where
  pub command_id : String
  pub topic : String
  pub payload : PayloadValue
  pub delivery : Option DeliveryGuarantee
  pub retain : Bool
  pub payload_format : Option MqttPayloadFormat
  pub content_type : Option String
  pub message_expiry_interval_secs : Option ℕ
  pub topic_alias : Option ℕ
  pub user_properties : List (String × String)
  pub reply_to : Option Address
  pub response_topic : Option String
  pub correlation_id : Option String
  pub correlation_data : Option (List ℕ)

pub record SubscribePlan : Type 0 where
  pub command_id : String
  pub topic : String
  pub delivery : Option DeliveryGuarantee
  pub durable_name : Option String
  pub shared_group : Option String
  pub no_local : Bool
  pub retain_as_published : Bool
  pub retain_handling : Option MqttRetainHandling
  pub subscription_identifier : Option ℕ
  pub user_properties : List (String × String)

pub data MqttNativePlan : Type 0 where
  publish : PublishPlan → MqttNativePlan
  subscribe : SubscribePlan → MqttNativePlan
  -- The command's id and the topic.
  unsubscribe : String → String → MqttNativePlan

pub data MqttWirePacket : Type 0 where
  v5_publish : V5Publish → MqttWirePacket
  v3_publish : V3Publish → MqttWirePacket
  v5_subscribe : V5Subscribe → MqttWirePacket
  v3_subscribe : V3Subscribe → MqttWirePacket
  v5_unsubscribe : V5Unsubscribe → MqttWirePacket
  v3_unsubscribe : V3Unsubscribe → MqttWirePacket

pub record MqttPacketRequest : Type 0 where
  pub command_id : String
  pub packet : MqttWirePacket

-- The errors of the JSON encoder and of the packet builders are their texts.
pub data MqttCommandConversionError : Type 0 where
  unsupported_intent : MqttCommandConversionError
  unsupported_channel_kind : BrokerChannelKind → MqttCommandConversionError
  mqtt_v5_publish_options_on_v3 : MqttCommandConversionError
  mqtt_v5_subscription_options_on_v3 : MqttCommandConversionError
  invalid_payload : String → MqttCommandConversionError
  packet_build : String → MqttCommandConversionError
  bridge : BridgePlannerError → MqttCommandConversionError
  invalid_bridge_message : MqttCommandConversionError
  foreign_extensions : ProtocolId → MqttCommandConversionError
  invalid_extension_value : String → ℕ → MqttCommandConversionError
  invalid_extension_name : String → String → MqttCommandConversionError
  invalid_extension_type : String → MqttCommandConversionError

pub data MqttProtocolVersion : Type 0 where
  v3_1_1 v5_0 : MqttProtocolVersion

pub record MqttAuthConfig : Type 0 where
  pub username : Option String
  pub password : Option String

pub record MqttWillConfig : Type 0 where
  pub topic : String
  pub payload : List ℕ
  pub delivery : Option DeliveryGuarantee
  pub retain : Bool
  pub delay_interval_secs : Option ℕ
  pub payload_format : Option MqttPayloadFormat
  pub message_expiry_interval_secs : Option ℕ
  pub content_type : Option String
  pub response_topic : Option String
  pub correlation_data : Option (List ℕ)
  pub user_properties : List (String × String)

pub record MqttConnectProperties : Type 0 where
  pub receive_maximum : Option ℕ
  pub maximum_packet_size : Option ℕ
  pub topic_alias_maximum : Option ℕ
  pub request_response_information : Option Bool
  pub request_problem_information : Option Bool
  pub session_expiry_interval_secs : Option ℕ
  pub authentication_method : Option String
  pub authentication_data : Option (List ℕ)
  pub user_properties : List (String × String)

pub record MqttConnackProperties : Type 0 where
  pub session_present : Bool
  pub reason_code : Option String
  pub reason_string : Option String
  pub assigned_client_identifier : Option String
  pub response_information : Option String
  pub server_reference : Option String
  pub receive_maximum : Option ℕ
  pub maximum_packet_size : Option ℕ
  pub topic_alias_maximum : Option ℕ
  pub session_expiry_interval_secs : Option ℕ
  pub maximum_qos : Option ℕ
  pub retain_available : Option Bool
  pub server_keep_alive : Option ℕ
  pub wildcard_subscription_available : Option Bool
  pub subscription_identifier_available : Option Bool
  pub shared_subscription_available : Option Bool
  pub authentication_method : Option String
  pub authentication_data : Option (List ℕ)
  pub user_properties : List (String × String)

-- The TLS material, which no code here reads, is left out.
pub record MqttEndpointConfig : Type 0 where
  pub broker : String
  pub client_id : String
  pub auth : Option MqttAuthConfig
  pub keepalive_secs : Option ℕ
  pub clean_start : Bool
  pub session_expiry_secs : Option ℕ
  pub topic_prefix : Option String
  pub connect_properties : MqttConnectProperties
  pub will : Option MqttWillConfig
  pub reconnect : BrokerReconnectConfig
  pub supported_versions : List MqttProtocolVersion

-- `MqttResourceAttributes` is a placeholder without fields.
abbrev pub MqttDevice : Type 0
MqttDevice = Device (Unit {0}) MqttEndpointConfig

abbrev same_version : MqttProtocolVersion → MqttProtocolVersion → Bool
same_version MqttProtocolVersion.v3_1_1 MqttProtocolVersion.v3_1_1 = true
same_version MqttProtocolVersion.v5_0 MqttProtocolVersion.v5_0 = true
same_version _ _ = false

abbrev versions_contain : List MqttProtocolVersion → MqttProtocolVersion → Bool
versions_contain [] version = false
versions_contain (v ∷ versions) version =
    same_version v version || versions_contain versions version

unfoldable pub preferred_protocol_version : MqttEndpointConfig → MqttProtocolVersion
preferred_protocol_version config =
    if versions_contain config.supported_versions MqttProtocolVersion.v5_0
    then MqttProtocolVersion.v5_0
    else if versions_contain config.supported_versions MqttProtocolVersion.v3_1_1
    then MqttProtocolVersion.v3_1_1
    else MqttProtocolVersion.v5_0

unfoldable pub supports_protocol_version : MqttEndpointConfig → MqttProtocolVersion → Bool
supports_protocol_version config version =
    is_empty config.supported_versions || versions_contain config.supported_versions version
