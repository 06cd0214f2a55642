-- ===== src/Witness/Mqtt.antt =====
-- The theorems on the MQTT adapter at concrete data.
use ferredge.Prelude.{arith, ◌≡◌, refl, true, none, some, [], ◌∷◌, ok}
use ferredge.Core.Route.{Address}
use ferredge.Mqtt.Package.{Packet}
use ferredge.Mqtt.Meta.{try_from_transport_meta, from_transport_meta, view}
use ferredge.Mqtt.Meta.Into.{into_transport_meta}
use ferredge.Mqtt.Meta.Field.{IsSized}
use ferredge.Mqtt.Meta.RoundTrip.{try_from-into_transport_meta}
use ferredge.Mqtt.Request.{native_packet_request, bridge_packet_request}
use ferredge.Mqtt.Request.Equivalence.{native_packet_request-bridge_packet_request}
use ferredge.Mqtt.Build.{build_publish_packet}
use ferredge.Mqtt.Decode.{decode, record_outbound_request, pending_reply_route_from_packet}
use ferredge.Mqtt.Inbound.{packet_request_packet_id, first_correlation_data}
use ferredge.Mqtt.Meta.{default}
use ferredge.Mqtt.Decode.Acks.{
  IsAnswered, IsAnswerTo, decode-IsAccounted, decode-record_outbound_request,
}
use ferredge.Mqtt.Decode.Replies.{IsAnsweredOnce, decode-IsAnsweredOnce}
use ferredge.Mqtt.Decode.Asked.{build_publish_packet-asked}
use ferredge.Witness.MqttData.{
  accepting, no_json, letter, broker, retained_view, publish_command, asking_packet, asking_request,
  fresh_decoder, ack, asking_publish,
}

native_packet_request-bridge_packet_request_example :
    native_packet_request accepting no_json broker publish_command
    ≡ bridge_packet_request accepting no_json broker publish_command
native_packet_request-bridge_packet_request_example =
    native_packet_request-bridge_packet_request accepting no_json broker publish_command

retained_view-IsSized : IsSized retained_view
unfolding default
retained_view-IsSized = record {
  qos_fits = λ n e. ground arith;
  packet_id_fits = λ n e. ground arith;
  message_expiry_interval_secs_fits = λ n e. ground arith;
  topic_alias_fits = λ n e. ground arith;
  subscription_identifiers_fit = (omega arith, (omega arith, tt));
}

try_from-into_transport_meta_example :
    (try_from_transport_meta (into_transport_meta retained_view) ≡ ok retained_view)
    × (from_transport_meta (into_transport_meta retained_view) ≡ some retained_view)
    × (view (into_transport_meta retained_view) ≡ some retained_view)
try_from-into_transport_meta_example =
    try_from-into_transport_meta retained_view retained_view-IsSized

decode-IsAccounted_example :
    IsAnswered fresh_decoder 1 true
      (decode accepting letter (λ _. none) fresh_decoder (Packet.v5_puback ack))
decode-IsAccounted_example =
    decode-IsAccounted accepting letter (λ _. none) fresh_decoder (Packet.v5_puback ack)

decode-record_outbound_request_example : IsAnswerTo fresh_decoder asking_request 1 true (
    decode accepting letter
      (λ _. none)
      (record_outbound_request letter fresh_decoder asking_request)
      (Packet.v5_puback ack))
unfolding packet_request_packet_id
decode-record_outbound_request_example =
    decode-record_outbound_request accepting letter (λ _. none) fresh_decoder asking_request 1 true
      (Packet.v5_puback ack) refl refl

decode-IsAnsweredOnce_example :
    IsAnsweredOnce accepting letter
      (λ _. none)
      fresh_decoder
      (record { command_id = "cmd-1"; reply_to = some (Address.channel "answers") })
      "a"
      asking_packet
      (decode accepting letter
        (λ _. none)
        (record_outbound_request letter fresh_decoder asking_request)
        (Packet.v5_publish asking_packet))
unfolding pending_reply_route_from_packet first_correlation_data
decode-IsAnsweredOnce_example =
    decode-IsAnsweredOnce accepting letter (λ _. none) fresh_decoder asking_request
      (record { command_id = "cmd-1"; reply_to = some (Address.channel "answers") }) asking_packet
      (7 ∷ []) refl refl

build_publish_packet-asked_example :
    pending_reply_route_from_packet letter asking_request
    ≡ some ("a", record { command_id = "cmd-1"; reply_to = some (Address.channel "answers") })
unfolding build_publish_packet pending_reply_route_from_packet
build_publish_packet-asked_example =
    build_publish_packet-asked accepting letter asking_publish asking_request refl
