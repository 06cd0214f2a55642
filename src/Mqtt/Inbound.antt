-- ===== src/Mqtt/Inbound.antt =====
-- crates/ferredge-proto-mqtt/src/runtime.rs: `MqttInboundDecoder`, which correlates what comes in with
-- the requests that went out. `lossy` is `String::from_utf8_lossy`, `from_utf8` the check of
-- `core::str::from_utf8`.
use ferredge.Prelude.{
  ℕ, String, Option, none, some, List, [], ◌∷◌, ◌++◌, and_then, ◌or◌, ◌==◌, if◌then◌else◌,
}
use ferredge.Core.Protocol as Protocol
use ferredge.Core.Route.{Address}
use ferredge.Core.Command.{EndpointRef, RoutedEvent, RoutedResult}
use ferredge.Mqtt.Package.{Property}
use ferredge.Mqtt.Types.{MqttPayloadFormat, MqttWirePacket}

pub record PendingReplyRoute : Type 0 where
  pub command_id : String
  pub reply_to : Option Address

pub record MqttInboundDecoder : Type 0 where
  pub device_id : String
  pub pending_command_ids : List (ℕ × String)
  pub pending_reply_routes : List (String × PendingReplyRoute)

pub data MqttDecodedInbound : Type 0 where
  ignored : MqttDecodedInbound
  event : RoutedEvent → MqttDecodedInbound
  result : RoutedResult → MqttDecodedInbound

unfoldable pub new_decoder : String → MqttInboundDecoder
new_decoder device_id = record {
  device_id = device_id;
  pending_command_ids = [];
  pending_reply_routes = [];
}

unfoldable pub packet_request_packet_id : MqttWirePacket → Option ℕ
packet_request_packet_id (MqttWirePacket.v5_publish packet) = packet.packet_id
packet_request_packet_id (MqttWirePacket.v3_publish packet) = packet.packet_id
packet_request_packet_id (MqttWirePacket.v5_subscribe packet) = some packet.packet_id
packet_request_packet_id (MqttWirePacket.v3_subscribe packet) = some packet.packet_id
packet_request_packet_id (MqttWirePacket.v5_unsubscribe packet) = some packet.packet_id
packet_request_packet_id (MqttWirePacket.v3_unsubscribe packet) = some packet.packet_id

unfoldable pub mqtt_source : String → EndpointRef
mqtt_source device_id = record { device_id = device_id; protocol = Protocol.mqtt }

abbrev pub format_of_val : ℕ → MqttPayloadFormat
format_of_val val = if val == 1 then MqttPayloadFormat.utf8 else MqttPayloadFormat.bytes

-- The first payload format among the properties.
unfoldable pub mqtt_payload_format : List Property → Option MqttPayloadFormat
mqtt_payload_format [] = none
mqtt_payload_format (Property.payload_format_indicator val ∷ props) = some (format_of_val val)
mqtt_payload_format (_ ∷ props) = mqtt_payload_format props

-- The first correlation data, and the first reason string.
unfoldable pub first_correlation_data : List Property → Option (List ℕ)
first_correlation_data [] = none
first_correlation_data (Property.correlation_data val ∷ props) = some val
first_correlation_data (_ ∷ props) = first_correlation_data props

unfoldable pub reason_string_from_props : List Property → Option String
reason_string_from_props [] = none
reason_string_from_props (Property.reason_string val ∷ props) = some val
reason_string_from_props (_ ∷ props) = reason_string_from_props props

unfoldable pub reason_string_from_props_opt : Option (List Property) → Option String
unfolding reason_string_from_props
reason_string_from_props_opt props = and_then props reason_string_from_props

-- The variables of the loops over a publish's properties.
pub record PublishProps : Type 0 where
  pub correlation_data : Option (List ℕ)
  pub response_topic : Option String
  pub content_type : Option String
  pub payload_format : Option MqttPayloadFormat
  pub message_expiry_interval_secs : Option ℕ
  pub topic_alias : Option ℕ
  pub subscription_identifiers : List ℕ
  pub user_properties : List (String × String)

abbrev pub no_props : PublishProps
no_props = record {
  correlation_data = none;
  response_topic = none;
  content_type = none;
  payload_format = none;
  message_expiry_interval_secs = none;
  topic_alias = none;
  subscription_identifiers = [];
  user_properties = [];
}

-- One round of a loop: the last property of a kind wins, lists grow at the end.
unfoldable pub read_prop : PublishProps → Property → PublishProps
read_prop s (Property.correlation_data val) = record s { correlation_data = some val }
read_prop s (Property.response_topic val) = record s { response_topic = some val }
read_prop s (Property.content_type val) = record s { content_type = some val }
read_prop s (Property.payload_format_indicator val) = record s {
  payload_format = some (format_of_val val);
}
read_prop s (Property.message_expiry_interval val) = record s {
  message_expiry_interval_secs = some val;
}
read_prop s (Property.topic_alias val) = record s { topic_alias = some val }
read_prop s (Property.subscription_identifier val) = record s {
  subscription_identifiers = s.subscription_identifiers ++ val ∷ [];
}
read_prop s (Property.user_property key val) = record s {
  user_properties = s.user_properties ++ (key, val) ∷ [];
}
read_prop s _ = s

unfoldable pub read_props : PublishProps → List Property → PublishProps
unfolding read_prop
read_props s [] = s
read_props s (prop ∷ props) = read_props (read_prop s prop) props

-- The loop of `mqtt_meta_from_v5_publish`, where correlation data that is there stays.
unfoldable pub read_prop_keeping : PublishProps → Property → PublishProps
unfolding read_prop
read_prop_keeping s (Property.correlation_data val) = record s {
  correlation_data = s.correlation_data or some val;
}
read_prop_keeping s prop = read_prop s prop

unfoldable pub read_props_keeping : PublishProps → List Property → PublishProps
unfolding read_prop_keeping
read_props_keeping s [] = s
read_props_keeping s (prop ∷ props) = read_props_keeping (read_prop_keeping s prop) props
