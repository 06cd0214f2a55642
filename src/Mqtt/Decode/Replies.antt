-- ===== src/Mqtt/Decode/Replies.antt =====
-- From a publish that asks for an answer to the publish that answers it.
use ferredge.Prelude.{
  ℕ, ◌≡◌, refl, ap, ◌∙◌, Bool, true, false, String, str_eq, eq_iff, eq_refl, Option, none, some,
  List, if◌then◌else◌,
}
use ferredge.Prelude.Map.{get, remove, get-insert, get-remove}
use ferredge.Core.Command.{RoutedResult, DeliveryState}
use ferredge.Mqtt.Package.{MqttCore, Packet, V5Publish}
use ferredge.Mqtt.Types.{MqttPacketRequest}
use ferredge.Mqtt.Inbound.{
  PendingReplyRoute, MqttInboundDecoder, MqttDecodedInbound, first_correlation_data,
}
use ferredge.Mqtt.Decode.{
  decode, pending_reply_route_from_packet, record_outbound_request, reply_result, waiting_route,
  routed_event_from_v5_publish, routed_reply_or_event_from_v5_publish,
}

-- What the answer to a request brings, and what it leaves waiting.
pub record IsAnsweredOnce (core : MqttCore) (lossy : List ℕ → String)
    (from_utf8 : List ℕ → Option String) (before : MqttInboundDecoder) (route : PendingReplyRoute)
    (key : String) (packet : V5Publish) (answer : MqttDecodedInbound × MqttInboundDecoder)
    : Type 0 where
  pub result : RoutedResult
  pub told : answer.0 ≡ MqttDecodedInbound.result result
  pub of_command : result.result.command_id ≡ route.command_id
  pub completed : result.result.state ≡ DeliveryState.completed
  pub addressed :
      result.result.correlation
      ≡ some (record { request_id = route.command_id; reply_to = route.reply_to })
  pub then_waiting :
      (other : String)
      → get str_eq answer.1.pending_reply_routes other
        ≡ (if str_eq key other then none else get str_eq before.pending_reply_routes other)
  pub then_event :
      (decode core lossy from_utf8 answer.1 (Packet.v5_publish packet)).0
      ≡ MqttDecodedInbound.event
          (routed_event_from_v5_publish core lossy from_utf8 answer.1.device_id packet)

module _ (core : MqttCore) (lossy : List ℕ → String) (from_utf8 : List ℕ → Option String)
    (before : MqttInboundDecoder) (packet : V5Publish) (correlation : List ℕ)
    (carried : first_correlation_data packet.props ≡ some correlation) where
  reply_found :
      (route : PendingReplyRoute)
      → get str_eq before.pending_reply_routes (lossy correlation) ≡ some route
      → decode core lossy from_utf8 before (Packet.v5_publish packet) ≡ (
        MqttDecodedInbound.result
            (reply_result core lossy from_utf8 before.device_id packet (lossy correlation) route),
        record before {
          pending_reply_routes = remove str_eq before.pending_reply_routes (lossy correlation);
        },
      )
  unfolding decode routed_reply_or_event_from_v5_publish waiting_route
  reply_found route found = rw (carried, found) refl

  reply_missing :
      get str_eq before.pending_reply_routes (lossy correlation) ≡ none
      → decode core lossy from_utf8 before (Packet.v5_publish packet) ≡ (
        MqttDecodedInbound.event
            (routed_event_from_v5_publish core lossy from_utf8 before.device_id packet),
        before,
      )
  unfolding decode routed_reply_or_event_from_v5_publish waiting_route
  reply_missing missing = rw (carried, missing) refl

recorded_route :
    (lossy : List ℕ → String) (before : MqttInboundDecoder) (request : MqttPacketRequest)
    (key other : String) (route : PendingReplyRoute)
    → pending_reply_route_from_packet lossy request ≡ some (key, route)
    → get str_eq (record_outbound_request lossy before request).pending_reply_routes other
      ≡ (if str_eq key other then some route else get str_eq before.pending_reply_routes other)
unfolding record_outbound_request
recorded_route lossy before request key other route asked =
    rw asked (get-insert str_eq eq_iff before.pending_reply_routes key other route)

forgotten :
    (b : Bool) (o : Option PendingReplyRoute) (route : PendingReplyRoute)
    → (if b then none else (if b then some route else o)) ≡ (if b then none else o)
forgotten true o route = refl
forgotten false o route = refl

own_route : {V : Type 0} (key : String) (x y : V) → (if str_eq key key then x else y) ≡ x
own_route key x y = rw (eq_refl key) refl

-- A publish whose correlation data is that of a request that went out answers it: the result is for
-- the request's command and goes to its reply address. It does so once: the route is forgotten, every
-- other stays, and the same publish again is an event.
pub decode-IsAnsweredOnce :
    (core : MqttCore) (lossy : List ℕ → String) (from_utf8 : List ℕ → Option String)
    (before : MqttInboundDecoder) (request : MqttPacketRequest) (route : PendingReplyRoute)
    (packet : V5Publish) (correlation : List ℕ)
    → pending_reply_route_from_packet lossy request ≡ some (lossy correlation, route)
    → first_correlation_data packet.props ≡ some correlation
    → IsAnsweredOnce core lossy from_utf8 before route (lossy correlation) packet (
        decode core lossy from_utf8
          (record_outbound_request lossy before request)
          (Packet.v5_publish packet))
decode-IsAnsweredOnce core lossy from_utf8 before request route packet correlation asked carried =
    rw
      (reply_found core lossy from_utf8 waiting packet correlation carried route (
        recorded_route lossy before request (lossy correlation) (lossy correlation) route asked
        ∙ own_route (lossy correlation) (some route) _))
      (record {
        result =
            reply_result core lossy from_utf8 waiting.device_id packet (lossy correlation) route;
        told = refl;
        of_command = unfold reply_result in refl;
        completed = unfold reply_result in refl;
        addressed = unfold reply_result in refl;
        then_waiting = after;
        then_event =
            ap (λ (d : MqttDecodedInbound × MqttInboundDecoder). d.0)
              (reply_missing core lossy from_utf8 _ packet correlation carried
                (after (lossy correlation) ∙ own_route (lossy correlation) none _));
      })
  where
    waiting : MqttInboundDecoder
    waiting = record_outbound_request lossy before request

    after :
        (other : String)
        → get str_eq (remove str_eq waiting.pending_reply_routes (lossy correlation)) other ≡ (
            if str_eq (lossy correlation) other
            then none
            else get str_eq before.pending_reply_routes other)
    after other =
        get-remove str_eq eq_iff waiting.pending_reply_routes (lossy correlation) other
        ∙ rw (recorded_route lossy before request (lossy correlation) other route asked) (
            forgotten (str_eq (lossy correlation) other)
              (get str_eq before.pending_reply_routes other) route)
