-- ===== src/Mqtt/Decode.antt =====
-- crates/ferredge-proto-mqtt/src/runtime.rs: incoming packets as routed events and results. `lossy` is
-- `String::from_utf8_lossy`, `from_utf8` is `core::str::from_utf8` without its error.
pub mod Acks
pub mod Replies
pub mod Asked
use ferredge.Prelude.{
  ℕ, Bool, true, false, not, String, as_bytes, to_decimal, str_append, Option, none, some, List, [],
  ◌∷◌, map, map_option, and_then, unwrap_or, is_some, is_empty, then_some, ◌||◌, ◌==◌, str_eq,
  if◌then◌else◌, Result, ok, err, filter_option,
}
use ferredge.Prelude.Map.{get, insert, remove}
use ferredge.Core.Headers.{from_pairs}
use ferredge.Core.Meta.{TransportMeta}
use ferredge.Core.Payload.{PayloadValue}
use ferredge.Core.Route.{Address, Route, Correlation}
use ferredge.Core.Command.{DeliveryState, CommandResult, RoutedEvent, RoutedResult}
use ferredge.Bridge.Message.{BridgeMessage}
use ferredge.Bridge.Planner.Outward.{routed_event_to_bridge, routed_result_to_bridge}
use ferredge.Mqtt.Package.{
  MqttCore, Property, V5Publish, V3Publish, ReasonCode, V5Ack, V5Suback, DisconnectReasonCode,
  V5Disconnect, V5Auth, Packet,
}
use ferredge.Mqtt.Types.{MqttPayloadFormat, MqttMeta, MqttWirePacket, MqttPacketRequest}
use ferredge.Mqtt.Meta.{default}
use ferredge.Mqtt.Meta.Into.{into_transport_meta}
use ferredge.Mqtt.Inbound.{
  PendingReplyRoute, MqttInboundDecoder, MqttDecodedInbound, packet_request_packet_id, mqtt_source,
  mqtt_payload_format, first_correlation_data, reason_string_from_props,
  reason_string_from_props_opt, PublishProps, no_props, read_props, read_props_keeping,
}
use ferredge.Mqtt.Results.{
  Pending, routed_result_from_v5_ack, routed_result_from_v5_suback, routed_result_from_packet_id,
  session_result, disconnect_state,
}

unfoldable pub routed_event_from_v3_publish : MqttCore → String → V3Publish → RoutedEvent
unfolding into_transport_meta default mqtt_source
routed_event_from_v3_publish core device_id packet = record {
  source = mqtt_source device_id;
  route = Route.messaging packet.topic_name;
  payload = PayloadValue.bytes packet.payload;
  correlation = none;
  transport = some (
      into_transport_meta (record default {
        topic = some packet.topic_name;
        qos = some (core.qos_as_u8 packet.qos);
        retain = packet.retain;
        duplicate = packet.dup;
        packet_id = packet.packet_id;
      }));
}

-- The view of a publish whose properties were read.
unfoldable pub meta_of_publish : MqttCore → V5Publish → PublishProps → MqttMeta
unfolding default from_pairs
meta_of_publish core packet props = record default {
  topic = some packet.topic_name;
  qos = some (core.qos_as_u8 packet.qos);
  retain = packet.retain;
  duplicate = packet.dup;
  packet_id = packet.packet_id;
  content_type = props.content_type;
  payload_format = props.payload_format;
  message_expiry_interval_secs = props.message_expiry_interval_secs;
  response_topic = props.response_topic;
  correlation_data = props.correlation_data;
  topic_alias = props.topic_alias;
  subscription_identifiers = props.subscription_identifiers;
  headers = then_some (not (is_empty props.user_properties)) (from_pairs props.user_properties);
}

unfoldable pub mqtt_meta_from_v5_publish : MqttCore → V5Publish → Option String → TransportMeta
unfolding meta_of_publish read_props_keeping into_transport_meta as_bytes
mqtt_meta_from_v5_publish core packet correlation_override =
    let start : PublishProps = record no_props {
      correlation_data = map_option as_bytes correlation_override;
    } in
    into_transport_meta (meta_of_publish core packet (read_props_keeping start packet.props))

abbrev reply_address : PublishProps → Option Address
reply_address props = map_option Address.channel props.response_topic

-- What `record_outbound_request` keeps of a publish that asks for an answer.
unfoldable pub pending_reply_route_from_packet :
    (List ℕ → String) → MqttPacketRequest → Option (String × PendingReplyRoute)
unfolding read_props
pending_reply_route_from_packet lossy request = elim request.packet [
  | MqttWirePacket.v5_publish packet ↦
      let props : PublishProps = read_props no_props packet.props in
      map_option
        (λ data_bytes. (
          lossy data_bytes,
          record { command_id = request.command_id; reply_to = reply_address props },
        ))
        props.correlation_data
  | _ ↦ none
]

abbrev pub answered :
    MqttInboundDecoder → RoutedResult × Pending → MqttDecodedInbound × MqttInboundDecoder
answered decoder (result, pending) =
    (MqttDecodedInbound.result result, record decoder { pending_command_ids = pending })

module _ (core : MqttCore) (lossy : List ℕ → String) (from_utf8 : List ℕ → Option String) where
  unfoldable pub payload_value_from_mqtt_bytes : List ℕ → Option MqttPayloadFormat → PayloadValue
  payload_value_from_mqtt_bytes bytes (some MqttPayloadFormat.utf8) =
      unwrap_or (map_option PayloadValue.string (from_utf8 bytes)) (PayloadValue.bytes bytes)
  payload_value_from_mqtt_bytes bytes _ = PayloadValue.bytes bytes

  abbrev correlation_of : PublishProps → Option Correlation
  correlation_of props =
      then_some (is_some props.correlation_data || is_some props.response_topic) (record {
        request_id = unwrap_or (map_option lossy props.correlation_data) "";
        reply_to = reply_address props;
      })

  unfoldable pub routed_event_from_v5_publish : String → V5Publish → RoutedEvent
  unfolding read_props meta_of_publish payload_value_from_mqtt_bytes into_transport_meta mqtt_source
  routed_event_from_v5_publish device_id packet =
      let props : PublishProps = read_props no_props packet.props in
      record {
        source = mqtt_source device_id;
        route = Route.messaging packet.topic_name;
        payload = payload_value_from_mqtt_bytes packet.payload props.payload_format;
        correlation = correlation_of props;
        transport = some (into_transport_meta (meta_of_publish core packet props));
      }

  unfoldable pub reply_result : String → V5Publish → String → PendingReplyRoute → RoutedResult
  unfolding payload_value_from_mqtt_bytes mqtt_meta_from_v5_publish mqtt_payload_format mqtt_source
  reply_result device_id packet correlation_key route = record {
    source = mqtt_source device_id;
    result = record {
      command_id = route.command_id;
      device_id = device_id;
      state = DeliveryState.completed;
      payload =
          some (payload_value_from_mqtt_bytes packet.payload (mqtt_payload_format packet.props));
      error = none;
      correlation = some (record { request_id = route.command_id; reply_to = route.reply_to });
    };
    transport = some (mqtt_meta_from_v5_publish core packet (some correlation_key));
  }

  -- The route that waits for a publish's first correlation data, with its key.
  unfoldable pub waiting_route :
      List (String × PendingReplyRoute) → Option (List ℕ) → Option (String × PendingReplyRoute)
  unfolding get
  waiting_route routes none = none
  waiting_route routes (some correlation_data) =
      map_option (λ route. (lossy correlation_data, route))
        (get str_eq routes (lossy correlation_data))

  abbrev pub reply_or_event :
      MqttInboundDecoder
      → V5Publish
      → Option (String × PendingReplyRoute)
      → MqttDecodedInbound × MqttInboundDecoder
  reply_or_event decoder packet (some (key, route)) = (
    MqttDecodedInbound.result (reply_result decoder.device_id packet key route),
    record decoder { pending_reply_routes = remove str_eq decoder.pending_reply_routes key },
  )
  reply_or_event decoder packet none =
      (MqttDecodedInbound.event (routed_event_from_v5_publish decoder.device_id packet), decoder)

  -- A publish with the correlation data of a waiting request answers it, once; any other is an event.
  unfoldable pub routed_reply_or_event_from_v5_publish :
      MqttInboundDecoder → V5Publish → MqttDecodedInbound × MqttInboundDecoder
  unfolding first_correlation_data waiting_route remove reply_result routed_event_from_v5_publish
  routed_reply_or_event_from_v5_publish decoder packet =
      reply_or_event decoder packet
        (waiting_route decoder.pending_reply_routes (first_correlation_data packet.props))

  -- `MqttInboundDecoder::decode`.
  unfoldable pub decode : MqttInboundDecoder → Packet → MqttDecodedInbound × MqttInboundDecoder
  unfolding routed_reply_or_event_from_v5_publish routed_event_from_v3_publish
      routed_result_from_v5_ack routed_result_from_v5_suback routed_result_from_packet_id
      session_result
  decode decoder (Packet.v5_publish packet) = routed_reply_or_event_from_v5_publish decoder packet
  decode decoder (Packet.v3_publish packet) = (
    MqttDecodedInbound.event (routed_event_from_v3_publish core decoder.device_id packet),
    decoder,
  )
  decode decoder (Packet.v5_puback packet) = answered decoder (
      routed_result_from_v5_ack DeliveryState.completed true decoder.pending_command_ids
        decoder.device_id packet)
  decode decoder (Packet.v3_puback packet_id) = answered decoder (
      routed_result_from_packet_id decoder.pending_command_ids decoder.device_id packet_id
        DeliveryState.completed true)
  decode decoder (Packet.v5_pubrec packet) = answered decoder (
      routed_result_from_v5_ack DeliveryState.dispatched false decoder.pending_command_ids
        decoder.device_id packet)
  decode decoder (Packet.v5_pubrel packet) = answered decoder (
      routed_result_from_v5_ack DeliveryState.dispatched false decoder.pending_command_ids
        decoder.device_id packet)
  decode decoder (Packet.v3_pubrec packet_id) = answered decoder (
      routed_result_from_packet_id decoder.pending_command_ids decoder.device_id packet_id
        DeliveryState.dispatched false)
  decode decoder (Packet.v3_pubrel packet_id) = answered decoder (
      routed_result_from_packet_id decoder.pending_command_ids decoder.device_id packet_id
        DeliveryState.dispatched false)
  decode decoder (Packet.v5_pubcomp packet) = answered decoder (
      routed_result_from_v5_ack DeliveryState.completed true decoder.pending_command_ids
        decoder.device_id packet)
  decode decoder (Packet.v3_pubcomp packet_id) = answered decoder (
      routed_result_from_packet_id decoder.pending_command_ids decoder.device_id packet_id
        DeliveryState.completed true)
  decode decoder (Packet.v5_suback packet) =
      answered decoder
        (routed_result_from_v5_suback decoder.pending_command_ids decoder.device_id packet)
  decode decoder (Packet.v3_suback packet_id) = answered decoder (
      routed_result_from_packet_id decoder.pending_command_ids decoder.device_id packet_id
        DeliveryState.completed true)
  decode decoder (Packet.v5_unsuback packet) =
      answered decoder
        (routed_result_from_v5_suback decoder.pending_command_ids decoder.device_id packet)
  decode decoder (Packet.v3_unsuback packet_id) = answered decoder (
      routed_result_from_packet_id decoder.pending_command_ids decoder.device_id packet_id
        DeliveryState.completed true)
  decode decoder (Packet.v5_disconnect packet) = (
    MqttDecodedInbound.result (
        session_result "__mqtt_disconnect__" decoder.device_id (disconnect_state packet.reason_code)
          (map_option core.disconnect_to_string packet.reason_code) packet.props),
    decoder,
  )
  decode decoder (Packet.v5_auth packet) = (
    MqttDecodedInbound.result (
        session_result "__mqtt_auth__" decoder.device_id
          (elim packet.reason_code [
            | none ↦ DeliveryState.accepted
            | some code ↦
                if core.auth_is_success code then DeliveryState.accepted else DeliveryState.rejected
          ])
          (map_option core.auth_to_string packet.reason_code) packet.props),
    decoder,
  )
  decode decoder _ = (MqttDecodedInbound.ignored, decoder)

abbrev record_route :
    List (String × PendingReplyRoute)
    → Option (String × PendingReplyRoute)
    → List (String × PendingReplyRoute)
record_route routes none = routes
record_route routes (some (key, route)) = insert str_eq routes key route

abbrev record_id : Pending → Option ℕ → String → Pending
record_id pending none command_id = pending
record_id pending (some packet_id) command_id = insert ◌==◌ pending packet_id command_id

unfoldable pub record_outbound_request :
    (List ℕ → String) → MqttInboundDecoder → MqttPacketRequest → MqttInboundDecoder
unfolding insert pending_reply_route_from_packet packet_request_packet_id
record_outbound_request lossy decoder request = record decoder {
  pending_command_ids =
      record_id decoder.pending_command_ids (packet_request_packet_id request.packet)
        request.command_id;
  pending_reply_routes =
      record_route decoder.pending_reply_routes (pending_reply_route_from_packet lossy request);
}

-- The two conversions of `MqttDecodedInbound`.
unfoldable pub bridge_of_decoded : MqttDecodedInbound → Result BridgeMessage String
unfolding routed_event_to_bridge routed_result_to_bridge
bridge_of_decoded (MqttDecodedInbound.event event) = ok (routed_event_to_bridge event)
bridge_of_decoded (MqttDecodedInbound.result result) = ok (routed_result_to_bridge result)
bridge_of_decoded MqttDecodedInbound.ignored = err "mqtt packet does not project to bridge message"
