-- ===== src/Mqtt/View.antt =====
-- crates/ferredge-proto-mqtt/src/convert.rs: what a packet is to say, read from a native plan or from
-- a bridge message. `json` is `serde_json::to_vec`, with its error as text.
use ferredge.Prelude.{
  ℕ, Bool, false, String, as_bytes, Option, none, some, List, [], map, Result, ok, err, ◌>>=◌,
  map_ok, map_err, ok_or, map_option, and_then, unwrap_or,
}
use ferredge.Core.Headers.{Headers}
use ferredge.Core.Meta
use ferredge.Core.Meta.{TransportMeta}
use ferredge.Core.Payload.{PayloadValue}
use ferredge.Core.Route.{Address, Route, Correlation}
use ferredge.Core.Command.{DeliveryGuarantee}
use ferredge.Bridge.Message.{BridgeMessage, BridgeCommand, BridgeOp, MessagingAction, MessagingOp}
use ferredge.Mqtt.Types.{
  MqttPayloadFormat, MqttRetainHandling, MqttMeta, MqttNativePlan, PublishPlan, SubscribePlan,
  MqttCommandConversionError, invalid_payload, invalid_bridge_message,
}
use ferredge.Mqtt.Meta as MqttMeta
use ferredge.Mqtt.Plan.{header_pair, first}

pub record PublishView : Type 0 where
  pub command_id : String
  pub topic : String
  pub payload : List ℕ
  pub delivery : Option DeliveryGuarantee
  pub retain : Bool
  pub payload_format : Option MqttPayloadFormat
  pub content_type : Option String
  pub message_expiry_interval_secs : Option ℕ
  pub topic_alias : Option ℕ
  pub reply_to : Option String
  pub response_topic : Option String
  pub correlation_id : Option String
  pub correlation_data : Option (List ℕ)
  pub projected_user_properties : List (String × String)

pub record SubscribeView : Type 0 where
  pub command_id : String
  pub topic : String
  pub delivery : Option DeliveryGuarantee
  pub durable_name : Option String
  pub shared_group : Option String
  pub no_local : Bool
  pub retain_as_published : Bool
  pub retain_handling : Option MqttRetainHandling
  pub subscription_identifier : Option ℕ
  pub projected_user_properties : List (String × String)

pub data PacketSemantics : Type 0 where
  publish : PublishView → PacketSemantics
  subscribe unsubscribe : SubscribeView → PacketSemantics

unfoldable pub channel_reply_to : Address → Option String
channel_reply_to (Address.channel value) = some value
channel_reply_to (Address.resource _) = none

unfoldable pub header_user_properties : Option Headers → List (String × String)
header_user_properties headers = unwrap_or (map_option (map header_pair) headers) []

unfoldable pub mqtt_capture_view : Option TransportMeta → Result MqttMeta MqttCommandConversionError
unfolding MqttMeta.try_from_transport_meta MqttMeta.default Meta.as_borrowed
mqtt_capture_view (some meta) = MqttMeta.try_from_transport_meta (Meta.as_borrowed meta)
mqtt_capture_view none = ok MqttMeta.default

unfoldable pub subscription_view_from_subscribe : SubscribePlan → SubscribeView
subscription_view_from_subscribe plan = record {
  command_id = plan.command_id;
  topic = plan.topic;
  delivery = plan.delivery;
  durable_name = plan.durable_name;
  shared_group = plan.shared_group;
  no_local = plan.no_local;
  retain_as_published = plan.retain_as_published;
  retain_handling = plan.retain_handling;
  subscription_identifier = plan.subscription_identifier;
  projected_user_properties = plan.user_properties;
}

unfoldable pub subscription_view_from_unsubscribe : String → String → SubscribeView
subscription_view_from_unsubscribe command_id topic = record {
  command_id = command_id;
  topic = topic;
  delivery = none;
  durable_name = none;
  shared_group = none;
  no_local = false;
  retain_as_published = false;
  retain_handling = none;
  subscription_identifier = none;
  projected_user_properties = [];
}

unfoldable pub subscription_view_from_route :
    BridgeCommand → MessagingOp → Route → Result SubscribeView MqttCommandConversionError
unfolding mqtt_capture_view header_user_properties
subscription_view_from_route bridge operation (Route.messaging topic) = do
  mqtt ← mqtt_capture_view bridge.transport
  ok (record {
    command_id = bridge.id;
    topic = topic;
    delivery = operation.delivery;
    durable_name = operation.durable_name;
    shared_group = operation.shared_group;
    no_local = mqtt.no_local;
    retain_as_published = mqtt.retain_as_published;
    retain_handling = mqtt.retain_handling;
    subscription_identifier = first mqtt.subscription_identifiers;
    projected_user_properties = header_user_properties bridge.headers;
  })
subscription_view_from_route bridge operation _ = err invalid_bridge_message

module _ (json : PayloadValue → Result (List ℕ) String) where
  unfoldable pub mqtt_payload_bytes : PayloadValue → Result (List ℕ) MqttCommandConversionError
  unfolding as_bytes
  mqtt_payload_bytes (PayloadValue.bytes bytes) = ok bytes
  mqtt_payload_bytes (PayloadValue.string value) = ok (as_bytes value)
  mqtt_payload_bytes PayloadValue.null = ok []
  mqtt_payload_bytes other = map_err invalid_payload (json other)

  unfoldable pub publish_view_from_native_plan :
      PublishPlan → Result PublishView MqttCommandConversionError
  unfolding mqtt_payload_bytes channel_reply_to
  publish_view_from_native_plan plan = do
    payload ← mqtt_payload_bytes plan.payload
    ok (record {
      command_id = plan.command_id;
      topic = plan.topic;
      payload = payload;
      delivery = plan.delivery;
      retain = plan.retain;
      payload_format = plan.payload_format;
      content_type = plan.content_type;
      message_expiry_interval_secs = plan.message_expiry_interval_secs;
      topic_alias = plan.topic_alias;
      reply_to = and_then plan.reply_to channel_reply_to;
      response_topic = plan.response_topic;
      correlation_id = plan.correlation_id;
      correlation_data = plan.correlation_data;
      projected_user_properties = plan.user_properties;
    })

  unfoldable pub packet_semantics_from_native_plan :
      MqttNativePlan → Result PacketSemantics MqttCommandConversionError
  unfolding publish_view_from_native_plan subscription_view_from_subscribe
      subscription_view_from_unsubscribe
  packet_semantics_from_native_plan (MqttNativePlan.publish plan) =
      map_ok PacketSemantics.publish (publish_view_from_native_plan plan)
  packet_semantics_from_native_plan (MqttNativePlan.subscribe plan) =
      ok (PacketSemantics.subscribe (subscription_view_from_subscribe plan))
  packet_semantics_from_native_plan (MqttNativePlan.unsubscribe command_id topic) =
      ok (PacketSemantics.unsubscribe (subscription_view_from_unsubscribe command_id topic))

  unfoldable pub publish_view_from_route :
      BridgeCommand → MessagingOp → Route → Result PublishView MqttCommandConversionError
  unfolding mqtt_capture_view header_user_properties mqtt_payload_bytes channel_reply_to
  publish_view_from_route bridge operation (Route.messaging topic) = do
    mqtt ← mqtt_capture_view bridge.transport
    value ← ok_or bridge.payload invalid_bridge_message
    payload ← mqtt_payload_bytes value
    ok (record {
      command_id = bridge.id;
      topic = topic;
      payload = payload;
      delivery = operation.delivery;
      retain = mqtt.retain;
      payload_format = mqtt.payload_format;
      content_type = mqtt.content_type;
      message_expiry_interval_secs = mqtt.message_expiry_interval_secs;
      topic_alias = mqtt.topic_alias;
      reply_to =
          and_then (and_then bridge.correlation (λ correlation. correlation.reply_to))
            channel_reply_to;
      response_topic = mqtt.response_topic;
      correlation_id =
          map_option (λ (correlation : Correlation). correlation.request_id) bridge.correlation;
      correlation_data = mqtt.correlation_data;
      projected_user_properties = header_user_properties bridge.headers;
    })
  publish_view_from_route bridge operation _ = err invalid_bridge_message

  abbrev semantics_of_action :
      BridgeCommand
      → MessagingOp
      → MessagingAction
      → Result PacketSemantics MqttCommandConversionError
  semantics_of_action command operation MessagingAction.publish =
      map_ok PacketSemantics.publish (publish_view_from_route command operation command.route)
  semantics_of_action command operation MessagingAction.subscribe =
      map_ok PacketSemantics.subscribe
        (subscription_view_from_route command operation command.route)
  semantics_of_action command operation MessagingAction.unsubscribe =
      map_ok PacketSemantics.unsubscribe
        (subscription_view_from_route command operation command.route)

  abbrev semantics_of_operation :
      BridgeCommand → BridgeOp → Result PacketSemantics MqttCommandConversionError
  semantics_of_operation command (BridgeOp.messaging operation) =
      semantics_of_action command operation operation.action
  semantics_of_operation command _ = err invalid_bridge_message

  unfoldable pub packet_semantics_from_bridge :
      BridgeMessage → Result PacketSemantics MqttCommandConversionError
  unfolding publish_view_from_route subscription_view_from_route
  packet_semantics_from_bridge (BridgeMessage.command command) =
      semantics_of_operation command command.operation
  packet_semantics_from_bridge _ = err invalid_bridge_message
