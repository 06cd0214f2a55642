-- ===== src/Mqtt/Decode/Acks.antt =====
-- Which command an acknowledgement is reported for, and what it leaves waiting.
use ferredge.Prelude.{
  subst, ℕ, ◌≡◌, refl, ap, ◌∙◌, Bool, true, false, ◌&&◌, String, to_decimal, Option, none, some,
  unwrap_or, ◌==◌, ==_iff, if◌then◌else◌, List,
}
use ferredge.Prelude.Map.{get, remove, get-insert, get-remove}
use ferredge.Core.Command.{RoutedResult, DeliveryState}
use ferredge.Mqtt.Package.{MqttCore, Packet}
use ferredge.Mqtt.Types.{MqttPacketRequest}
use ferredge.Mqtt.Inbound.{
  MqttInboundDecoder, MqttDecodedInbound, mqtt_source, packet_request_packet_id,
}
use ferredge.Mqtt.Results.{
  Pending, routed_result_from_packet_id, routed_result_from_packet_id_with_transport,
  routed_result_from_v5_ack, routed_result_from_v5_suback,
}
use ferredge.Mqtt.Decode.{
  reply_or_event, PendingReplyRoute, TransportMeta, V5Publish, decode, answered,
  record_outbound_request, routed_reply_or_event_from_v5_publish,
}

-- The packet identifier that a packet acknowledges, and whether no further packet follows under it:
-- MQTT's handshakes end with PUBACK, PUBCOMP, SUBACK and UNSUBACK.
abbrev pub acknowledges : Packet → Option (ℕ × Bool)
acknowledges (Packet.v5_puback packet) = some (packet.packet_id, true)
acknowledges (Packet.v3_puback packet_id) = some (packet_id, true)
acknowledges (Packet.v5_pubrec packet) = some (packet.packet_id, false)
acknowledges (Packet.v3_pubrec packet_id) = some (packet_id, false)
acknowledges (Packet.v5_pubrel packet) = some (packet.packet_id, false)
acknowledges (Packet.v3_pubrel packet_id) = some (packet_id, false)
acknowledges (Packet.v5_pubcomp packet) = some (packet.packet_id, true)
acknowledges (Packet.v3_pubcomp packet_id) = some (packet_id, true)
acknowledges (Packet.v5_suback packet) = some (packet.packet_id, true)
acknowledges (Packet.v3_suback packet_id) = some (packet_id, true)
acknowledges (Packet.v5_unsuback packet) = some (packet.packet_id, true)
acknowledges (Packet.v3_unsuback packet_id) = some (packet_id, true)
acknowledges _ = none

-- What an acknowledgement of `packet_id` does.
pub record IsAnswered (before : MqttInboundDecoder) (packet_id : ℕ) (final : Bool)
    (answer : MqttDecodedInbound × MqttInboundDecoder) : Type 0 where
  pub result : RoutedResult
  pub told : answer.0 ≡ MqttDecodedInbound.result result
  pub from : result.source ≡ mqtt_source before.device_id
  pub of_command :
      result.result.command_id
      ≡ unwrap_or (get ◌==◌ before.pending_command_ids packet_id) (to_decimal packet_id)
  pub then_waiting :
      (other : ℕ)
      → get ◌==◌ answer.1.pending_command_ids other
        ≡ (if final && packet_id == other then none else get ◌==◌ before.pending_command_ids other)
  pub same_routes : answer.1.pending_reply_routes ≡ before.pending_reply_routes
  pub same_device : answer.1.device_id ≡ before.device_id

abbrev pub IsAccounted :
    MqttInboundDecoder → Option (ℕ × Bool) → MqttDecodedInbound × MqttInboundDecoder → Type 0
IsAccounted before none answer = answer.1.pending_command_ids ≡ before.pending_command_ids
IsAccounted before (some (packet_id, final)) answer = IsAnswered before packet_id final answer

waiting_after :
    (pending : Pending) (packet_id : ℕ) (final : Bool) (other : ℕ)
    → get ◌==◌ (if final then remove ◌==◌ pending packet_id else pending) other
      ≡ (if final && packet_id == other then none else get ◌==◌ pending other)
waiting_after pending packet_id true other = get-remove ◌==◌ ==_iff pending packet_id other
waiting_after pending packet_id false other = refl

module _ (before : MqttInboundDecoder) (packet_id : ℕ) (final : Bool) where
  with_transport :
      (state : DeliveryState) (error : Option String) (transport : Option TransportMeta)
      → IsAnswered before packet_id final (
          answered before (
            routed_result_from_packet_id_with_transport before.pending_command_ids before.device_id
              packet_id state error final transport))
  unfolding routed_result_from_packet_id_with_transport
  with_transport state error transport = record {
    result = _;
    told = refl;
    from = refl;
    of_command = refl;
    then_waiting = waiting_after before.pending_command_ids packet_id final;
    same_routes = refl;
    same_device = refl;
  }

  without_transport :
      (state : DeliveryState)
      → IsAnswered before packet_id final (
          answered before (
            routed_result_from_packet_id before.pending_command_ids before.device_id packet_id state
              final))
  unfolding routed_result_from_packet_id
  without_transport state = with_transport state none none

module _ (core : MqttCore) (lossy : List ℕ → String) (from_utf8 : List ℕ → Option String)
    (before : MqttInboundDecoder) where
  publish_keeps :
      (packet : V5Publish) (found : Option (String × PendingReplyRoute))
      → (reply_or_event core lossy from_utf8 before packet found).1.pending_command_ids
        ≡ before.pending_command_ids
  publish_keeps packet none = refl
  publish_keeps packet (some (key, route)) = refl

  -- An acknowledgement is reported as a result from the device for the command that waits under its
  -- packet identifier, or for the identifier as text if none does; the last of a handshake, and only
  -- that, forgets the identifier, every other stays as it was, and so do the reply routes. Any other
  -- packet leaves the waiting commands alone.
  pub decode-IsAccounted :
      (packet : Packet)
      → IsAccounted before (acknowledges packet) (decode core lossy from_utf8 before packet)
  unfolding decode routed_result_from_v5_ack routed_result_from_v5_suback
      routed_reply_or_event_from_v5_publish
  decode-IsAccounted (Packet.v5_puback packet) = with_transport before packet.packet_id true _ _ _
  decode-IsAccounted (Packet.v3_puback packet_id) = without_transport before packet_id true _
  decode-IsAccounted (Packet.v5_pubrec packet) = with_transport before packet.packet_id false _ _ _
  decode-IsAccounted (Packet.v3_pubrec packet_id) = without_transport before packet_id false _
  decode-IsAccounted (Packet.v5_pubrel packet) = with_transport before packet.packet_id false _ _ _
  decode-IsAccounted (Packet.v3_pubrel packet_id) = without_transport before packet_id false _
  decode-IsAccounted (Packet.v5_pubcomp packet) = with_transport before packet.packet_id true _ _ _
  decode-IsAccounted (Packet.v3_pubcomp packet_id) = without_transport before packet_id true _
  decode-IsAccounted (Packet.v5_suback packet) = with_transport before packet.packet_id true _ _ _
  decode-IsAccounted (Packet.v3_suback packet_id) = without_transport before packet_id true _
  decode-IsAccounted (Packet.v5_unsuback packet) = with_transport before packet.packet_id true _ _ _
  decode-IsAccounted (Packet.v3_unsuback packet_id) = without_transport before packet_id true _
  decode-IsAccounted (Packet.v5_publish packet) = publish_keeps packet _
  decode-IsAccounted _ = refl

recorded_ids :
    (lossy : List ℕ → String) (before : MqttInboundDecoder) (request : MqttPacketRequest)
    (packet_id other : ℕ)
    → packet_request_packet_id request.packet ≡ some packet_id
    → get ◌==◌ (record_outbound_request lossy before request).pending_command_ids other ≡ (
        if packet_id == other
        then some request.command_id
        else get ◌==◌ before.pending_command_ids other)
unfolding record_outbound_request
recorded_ids lossy before request packet_id other sent =
    rw sent (get-insert ◌==◌ ==_iff before.pending_command_ids packet_id other request.command_id)

recorded_own :
    (lossy : List ℕ → String) (before : MqttInboundDecoder) (request : MqttPacketRequest)
    (packet_id : ℕ)
    → packet_request_packet_id request.packet ≡ some packet_id
    → get ◌==◌ (record_outbound_request lossy before request).pending_command_ids packet_id
      ≡ some request.command_id
recorded_own lossy before request packet_id sent =
    rw (recorded_ids lossy before request packet_id packet_id sent)
      (rw ((==_iff packet_id packet_id).1 refl) refl)

-- What the acknowledgement of a request's packet identifier brings.
pub record IsAnswerTo (before : MqttInboundDecoder) (request : MqttPacketRequest) (packet_id : ℕ)
    (final : Bool) (answer : MqttDecodedInbound × MqttInboundDecoder) : Type 0 where
  pub result : RoutedResult
  pub told : answer.0 ≡ MqttDecodedInbound.result result
  pub of_request : result.result.command_id ≡ request.command_id
  pub then_waiting :
      (other : ℕ)
      → get ◌==◌ answer.1.pending_command_ids other ≡ (
          if packet_id == other
          then if final then none else some request.command_id
          else get ◌==◌ before.pending_command_ids other)

waiting_merged :
    (b final : Bool) (c : String) (o : Option String)
    → (if final && b then none else (if b then some c else o))
      ≡ (if b then (if final then none else some c) else o)
waiting_merged true true c o = refl
waiting_merged true false c o = refl
waiting_merged false true c o = refl
waiting_merged false false c o = refl

-- A request that went out under a packet identifier is what an acknowledgement of it is reported for;
-- the last of a handshake forgets it, and what else waits stays as it was.
pub decode-record_outbound_request :
    (core : MqttCore) (lossy : List ℕ → String) (from_utf8 : List ℕ → Option String)
    (before : MqttInboundDecoder) (request : MqttPacketRequest) (packet_id : ℕ) (final : Bool)
    (packet : Packet)
    → packet_request_packet_id request.packet ≡ some packet_id
    → acknowledges packet ≡ some (packet_id, final)
    → IsAnswerTo before request packet_id final
        (decode core lossy from_utf8 (record_outbound_request lossy before request) packet)
decode-record_outbound_request core lossy from_utf8 before request packet_id final packet sent
      acked =
    let sent_before = record_outbound_request lossy before request in
    let answer : IsAnswered sent_before packet_id final
        (decode core lossy from_utf8 sent_before packet) =
      subst (λ a. IsAccounted sent_before a (decode core lossy from_utf8 sent_before packet)) acked
        (decode-IsAccounted core lossy from_utf8 sent_before packet) in
    record {
      result = answer.result;
      told = answer.told;
      of_request =
          answer.of_command
          ∙ ap (λ waiting. unwrap_or waiting (to_decimal packet_id))
              (recorded_own lossy before request packet_id sent);
      then_waiting = λ other.
          answer.then_waiting other
          ∙ rw (recorded_ids lossy before request packet_id other sent) (
              waiting_merged (packet_id == other) final request.command_id
                (get ◌==◌ before.pending_command_ids other));
    }
