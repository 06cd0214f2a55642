-- ===== src/Mqtt/Build.antt =====
-- crates/ferredge-proto-mqtt/src/convert.rs: the packet for a semantics and a protocol version.
use ferredge.Prelude.{
  ℕ, Bool, not, ◌||◌, String, str_append, as_bytes, Option, none, some, List, [], ◌∷◌, ◌++◌, map,
  is_some, is_empty, Result, ok, err, ◌>>=◌, ◌>>◌, map_err, map_option, ◌or◌, then_some, unwrap_or,
  collect, if◌then◌else◌, false,
}
use ferredge.Core.Command.{DeliveryGuarantee}
use ferredge.Mqtt.Package.{
  V3Unsubscribe, V3Publish, V3Subscribe, V5Publish, V5Unsubscribe, V5Subscribe, MqttCore, Qos,
  PayloadFormat, RetainHandling, Version, Property, SubEntry, checked, Packet,
}
use ferredge.Mqtt.Types.{
  MqttPayloadFormat, MqttRetainHandling, MqttProtocolVersion, MqttWirePacket, MqttPacketRequest,
  MqttCommandConversionError, packet_build, mqtt_v5_publish_options_on_v3,
  mqtt_v5_subscription_options_on_v3,
}
use ferredge.Mqtt.View.{PublishView, SubscribeView, PacketSemantics}

unfoldable pub qos_from_delivery : Option DeliveryGuarantee → Qos
qos_from_delivery (some DeliveryGuarantee.exactly_once) = Qos.exactly_once
qos_from_delivery (some DeliveryGuarantee.at_least_once) = Qos.at_least_once
qos_from_delivery _ = Qos.at_most_once

unfoldable pub packet_id_for_qos : Qos → Option ℕ
packet_id_for_qos Qos.at_most_once = none
packet_id_for_qos Qos.at_least_once = some 1
packet_id_for_qos Qos.exactly_once = some 1

unfoldable pub mqtt_topic_from_subscription_parts : String → Option String → String
mqtt_topic_from_subscription_parts topic none = topic
mqtt_topic_from_subscription_parts topic (some shared_group) =
    str_append (str_append (str_append "$share/" shared_group) "/") topic

abbrev pub retain_handling_from_core : MqttRetainHandling → RetainHandling
retain_handling_from_core MqttRetainHandling.send_retained = RetainHandling.send_retained
retain_handling_from_core MqttRetainHandling.send_retained_if_not_exists =
    RetainHandling.send_retained_if_not_exists
retain_handling_from_core MqttRetainHandling.do_not_send_retained =
    RetainHandling.do_not_send_retained

-- The `if` that ends in `MqttV5PublishOptionsOnV3`.
abbrev pub has_v5_publish_options : PublishView → Bool
has_v5_publish_options publish =
    is_some publish.payload_format
    || is_some publish.content_type
    || is_some publish.message_expiry_interval_secs
    || is_some publish.topic_alias
    || is_some publish.response_topic
    || is_some publish.correlation_data
    || not (is_empty publish.projected_user_properties)
    || is_some publish.reply_to
    || is_some publish.correlation_id

unfoldable pub validate_v3_publish_support :
    PublishView → Result (Unit {0}) MqttCommandConversionError
validate_v3_publish_support publish =
    if has_v5_publish_options publish then err mqtt_v5_publish_options_on_v3 else ok tt

abbrev pub has_v5_subscription_options : SubscribeView → Bool
has_v5_subscription_options subscription =
    subscription.no_local
    || subscription.retain_as_published
    || is_some subscription.retain_handling
    || is_some subscription.subscription_identifier
    || not (is_empty subscription.projected_user_properties)
    || is_some subscription.durable_name
    || is_some subscription.shared_group

unfoldable pub validate_v3_subscribe_support :
    SubscribeView → Result (Unit {0}) MqttCommandConversionError
validate_v3_subscribe_support subscription =
    if has_v5_subscription_options subscription
    then err mqtt_v5_subscription_options_on_v3
    else ok tt

abbrev pub payload_format_of : MqttPayloadFormat → PayloadFormat
payload_format_of MqttPayloadFormat.bytes = PayloadFormat.binary
payload_format_of MqttPayloadFormat.utf8 = PayloadFormat.string

-- An option as the list of what is pushed.
abbrev pub pushed {ℓ} : {A : Type ℓ} → (A → Property) → Option A → List Property
pushed property none = []
pushed property (some value) = property value ∷ []

abbrev pub user_properties : List (String × String) → List Property
user_properties pairs = map (λ pair. Property.user_property pair.0 pair.1) pairs

-- The data the broker's answer is told by: given, else the correlation id, else the command's id if
-- an answer is asked for.
unfoldable pub correlation_data_of : PublishView → Option (List ℕ)
unfolding as_bytes
correlation_data_of publish =
    publish.correlation_data
    or map_option as_bytes publish.correlation_id
    or then_some (is_some publish.reply_to || is_some publish.response_topic)
        (as_bytes publish.command_id)

module _ (core : MqttCore) where
  -- Each property is checked as it is made, in the order in which they are pushed.
  unfoldable pub push_all : List Property → Result (List Property) String
  unfolding collect
  push_all props = collect (λ property. checked (core.check_property property) property) props

  unfoldable pub publish_props : PublishView → List Property
  unfolding correlation_data_of
  publish_props publish =
      pushed
        (λ format.
          Property.payload_format_indicator (core.payload_format_val (payload_format_of format)))
        publish.payload_format
      ++ (pushed Property.message_expiry_interval publish.message_expiry_interval_secs
          ++ (pushed Property.topic_alias publish.topic_alias
              ++ (pushed Property.response_topic (publish.response_topic or publish.reply_to)
                  ++ (pushed Property.content_type publish.content_type
                      ++ (pushed Property.correlation_data (correlation_data_of publish)
                          ++ user_properties publish.projected_user_properties)))))

  unfoldable pub subscribe_props : SubscribeView → List Property
  subscribe_props subscription =
      pushed Property.subscription_identifier subscription.subscription_identifier
      ++ user_properties subscription.projected_user_properties

  -- `build()` of a packet, wrapped with the command's id.
  abbrev built :
      String → Packet → MqttWirePacket → Result MqttPacketRequest MqttCommandConversionError
  built command_id packet wire =
      map_err packet_build
        (checked (core.build packet) (record { command_id = command_id; packet = wire }))

  unfoldable pub build_publish_packet :
      PublishView → MqttProtocolVersion → Result MqttPacketRequest MqttCommandConversionError
  unfolding publish_props push_all qos_from_delivery packet_id_for_qos validate_v3_publish_support
  build_publish_packet publish MqttProtocolVersion.v5_0 = do
    props ← map_err packet_build (push_all (publish_props publish))
    map_err packet_build (core.check_topic_name Version.v5_0 publish.topic)
    let qos = qos_from_delivery publish.delivery
    let packet : V5Publish = record {
      topic_name = publish.topic;
      qos = qos;
      retain = publish.retain;
      dup = false;
      packet_id = packet_id_for_qos qos;
      payload = publish.payload;
      props = props;
    }
    built publish.command_id (Packet.v5_publish packet) (MqttWirePacket.v5_publish packet)
  build_publish_packet publish MqttProtocolVersion.v3_1_1 = do
    validate_v3_publish_support publish
    map_err packet_build (core.check_topic_name Version.v3_1_1 publish.topic)
    let qos = qos_from_delivery publish.delivery
    let packet : V3Publish = record {
      topic_name = publish.topic;
      qos = qos;
      retain = publish.retain;
      dup = false;
      packet_id = packet_id_for_qos qos;
      payload = publish.payload;
    }
    built publish.command_id (Packet.v3_publish packet) (MqttWirePacket.v3_publish packet)

  abbrev pub sub_entry : SubscribeView → SubEntry
  sub_entry subscription = record {
    topic_filter = mqtt_topic_from_subscription_parts subscription.topic subscription.shared_group;
    sub_opts = record {
      qos = qos_from_delivery subscription.delivery;
      nl = subscription.no_local;
      rap = subscription.retain_as_published;
      rh =
          unwrap_or (map_option retain_handling_from_core subscription.retain_handling)
            (core.new_sub_opts).rh;
    };
  }

  unfoldable pub build_subscribe_packet :
      SubscribeView → MqttProtocolVersion → Result MqttPacketRequest MqttCommandConversionError
  unfolding push_all subscribe_props qos_from_delivery mqtt_topic_from_subscription_parts
      validate_v3_subscribe_support
  build_subscribe_packet subscription MqttProtocolVersion.v5_0 = do
    let entry = sub_entry subscription
    map_err packet_build (core.check_sub_entry entry)
    props ← map_err packet_build (push_all (subscribe_props subscription))
    let packet : V5Subscribe = record { packet_id = 1; entries = entry ∷ []; props = props }
    built subscription.command_id (Packet.v5_subscribe packet) (MqttWirePacket.v5_subscribe packet)
  build_subscribe_packet subscription MqttProtocolVersion.v3_1_1 = do
    let entry = sub_entry subscription
    map_err packet_build (core.check_sub_entry entry)
    validate_v3_subscribe_support subscription
    let packet : V3Subscribe = record { packet_id = 1; entries = entry ∷ [] }
    built subscription.command_id (Packet.v3_subscribe packet) (MqttWirePacket.v3_subscribe packet)

  unfoldable pub unsubscribe_props : SubscribeView → List Property
  unsubscribe_props subscription =
      Property.user_property "ferredge-command-id" subscription.command_id ∷ []

  unfoldable pub build_unsubscribe_packet :
      SubscribeView → MqttProtocolVersion → Result MqttPacketRequest MqttCommandConversionError
  unfolding push_all unsubscribe_props mqtt_topic_from_subscription_parts
      validate_v3_subscribe_support
  build_unsubscribe_packet subscription MqttProtocolVersion.v5_0 = do
    let topic = mqtt_topic_from_subscription_parts subscription.topic subscription.shared_group
    props ← map_err packet_build (push_all (unsubscribe_props subscription))
    map_err packet_build (core.check_topic_filters Version.v5_0 (topic ∷ []))
    let packet : V5Unsubscribe = record { packet_id = 1; entries = topic ∷ []; props = props }
    built subscription.command_id (Packet.v5_unsubscribe packet)
        (MqttWirePacket.v5_unsubscribe packet)
  build_unsubscribe_packet subscription MqttProtocolVersion.v3_1_1 = do
    let topic = mqtt_topic_from_subscription_parts subscription.topic subscription.shared_group
    validate_v3_subscribe_support subscription
    map_err packet_build (core.check_topic_filters Version.v3_1_1 (topic ∷ []))
    let packet : V3Unsubscribe = record { packet_id = 1; entries = topic ∷ [] }
    built subscription.command_id (Packet.v3_unsubscribe packet)
        (MqttWirePacket.v3_unsubscribe packet)

  unfoldable pub build_packet_request :
      PacketSemantics → MqttProtocolVersion → Result MqttPacketRequest MqttCommandConversionError
  unfolding build_publish_packet build_subscribe_packet build_unsubscribe_packet
  build_packet_request (PacketSemantics.publish publish) version =
      build_publish_packet publish version
  build_packet_request (PacketSemantics.subscribe subscription) version =
      build_subscribe_packet subscription version
  build_packet_request (PacketSemantics.unsubscribe subscription) version =
      build_unsubscribe_packet subscription version
