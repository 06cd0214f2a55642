-- ===== src/Mqtt/Plan.antt =====
-- crates/ferredge-proto-mqtt/src/lib.rs: `MqttCommandPlanner`, natively and as a bridge message.
use ferredge.Prelude.{
  String, Option, none, some, List, [], ◌∷◌, map, Result, ok, err, ◌>>=◌, map_err, map_option,
  and_then, ℕ,
}
use ferredge.Core.Headers
use ferredge.Core.Headers.{Header, Headers}
use ferredge.Core.Meta.{TransportMeta}
use ferredge.Core.Payload.{PayloadValue}
use ferredge.Core.Route.{Correlation}
use ferredge.Core.Command.{
  Intent, Command, BrokerAddress, BrokerChannelKind, BrokerMessageOptions,
  BrokerSubscriptionOptions,
}
use ferredge.Bridge.Message.{BridgeMessage}
use ferredge.Bridge.Planner.{command_to_messaging}
use ferredge.Mqtt.Types.{
  MqttMeta, MqttNativePlan, MqttCommandConversionError, unsupported_intent,
  unsupported_channel_kind, bridge,
}
use ferredge.Mqtt.Meta as MqttMeta

unfoldable pub split_mqtt_extensions :
    Option TransportMeta → Result MqttMeta MqttCommandConversionError
unfolding MqttMeta.try_from_transport_meta MqttMeta.default
split_mqtt_extensions (some meta) = MqttMeta.try_from_transport_meta meta
split_mqtt_extensions none = ok MqttMeta.default

abbrev pub header_pair : Header → String × String
header_pair header = (header.key, header.value)

unfoldable pub merged_user_properties : Headers → Option Headers → List (String × String)
unfolding Headers.merge
merged_user_properties headers none = map header_pair headers
merged_user_properties headers (some capture_headers) =
    map header_pair (Headers.merge headers capture_headers)

-- `match channel.kind`: only topics, and channels of no stated kind, are MQTT topics.
unfoldable pub topic_of_channel :
    String → Option BrokerChannelKind → Result String MqttCommandConversionError
topic_of_channel name none = ok name
topic_of_channel name (some BrokerChannelKind.topic) = ok name
topic_of_channel name (some kind) = err (unsupported_channel_kind kind)

abbrev pub first : List ℕ → Option ℕ
first [] = none
first (identifier ∷ _) = some identifier

unfoldable pub plan_send :
    Command
    → BrokerAddress
    → PayloadValue
    → BrokerMessageOptions
    → Result MqttNativePlan MqttCommandConversionError
unfolding split_mqtt_extensions merged_user_properties topic_of_channel
plan_send command channel payload options = do
  view ← split_mqtt_extensions options.extensions
  topic ← topic_of_channel channel.name channel.kind
  ok (
      MqttNativePlan.publish (record {
        command_id = command.id;
        topic = topic;
        payload = payload;
        delivery = options.delivery;
        retain = view.retain;
        payload_format = view.payload_format;
        content_type = view.content_type;
        message_expiry_interval_secs = view.message_expiry_interval_secs;
        topic_alias = view.topic_alias;
        user_properties = merged_user_properties options.headers view.headers;
        reply_to = and_then command.correlation (λ correlation. correlation.reply_to);
        response_topic = view.response_topic;
        correlation_id =
            map_option (λ (correlation : Correlation). correlation.request_id) command.correlation;
        correlation_data = view.correlation_data;
      }))

unfoldable pub plan_subscribe :
    Command
    → BrokerAddress
    → BrokerSubscriptionOptions
    → Result MqttNativePlan MqttCommandConversionError
unfolding split_mqtt_extensions merged_user_properties topic_of_channel
plan_subscribe command channel options = do
  view ← split_mqtt_extensions options.extensions
  topic ← topic_of_channel channel.name channel.kind
  ok (
      MqttNativePlan.subscribe (record {
        command_id = command.id;
        topic = topic;
        delivery = options.delivery;
        durable_name = options.durable_name;
        shared_group = options.shared_group;
        no_local = view.no_local;
        retain_as_published = view.retain_as_published;
        retain_handling = view.retain_handling;
        subscription_identifier = first view.subscription_identifiers;
        user_properties = merged_user_properties [] view.headers;
      }))

unfoldable pub plan_unsubscribe :
    Command → BrokerAddress → Result MqttNativePlan MqttCommandConversionError
unfolding topic_of_channel
plan_unsubscribe command channel = do
  topic ← topic_of_channel channel.name channel.kind
  ok (MqttNativePlan.unsubscribe command.id topic)

-- The native planner.
unfoldable pub plan_native : Command → Result MqttNativePlan MqttCommandConversionError
unfolding plan_send plan_subscribe plan_unsubscribe
plan_native command = elim command.intent [
  | Intent.send channel payload options ↦ plan_send command channel payload options
  | Intent.subscribe channel options ↦ plan_subscribe command channel options
  | Intent.unsubscribe channel ↦ plan_unsubscribe command channel
  | _ ↦ err unsupported_intent
]

-- The check of the channel's kind, which stands before the common planner.
unfoldable pub check_kind : Option BrokerChannelKind → Result (Unit {0}) MqttCommandConversionError
check_kind none = ok tt
check_kind (some BrokerChannelKind.topic) = ok tt
check_kind (some kind) = err (unsupported_channel_kind kind)

abbrev message_on : Command → BrokerAddress → Result BridgeMessage MqttCommandConversionError
message_on command channel =
    check_kind channel.kind >>= λ _. map_err bridge (command_to_messaging command)

unfoldable pub planner_message_for_command :
    Command → Result BridgeMessage MqttCommandConversionError
unfolding check_kind command_to_messaging
planner_message_for_command command = elim command.intent [
  | Intent.send channel _ _ ↦ message_on command channel
  | Intent.subscribe channel _ ↦ message_on command channel
  | Intent.unsubscribe channel ↦ message_on command channel
  | _ ↦ err unsupported_intent
]
