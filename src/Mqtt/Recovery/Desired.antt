-- ===== src/Mqtt/Recovery/Desired.antt =====
-- What the driver subscribes to again.
use ferredge.Prelude.{
  ℕ, String, Option, none, some, List, [], ◌∷◌, ◌≡◌, refl, ap, ◌∙◌, if◌then◌else◌, str_eq,
}
use ferredge.Prelude.Map.{get, get-insert, get-remove}
use ferredge.Prelude.{eq_iff}
use ferredge.Mqtt.Package.{SubEntry, Property}
use ferredge.Mqtt.Types.{MqttWirePacket, MqttPacketRequest}
use ferredge.Mqtt.Recovery.{Recovery, request_topic_key, track_subscription_intent, track_at}

unfoldable pub track_all : Recovery → List MqttPacketRequest → Recovery
unfolding track_subscription_intent
track_all recovery [] = recovery
track_all recovery (request ∷ requests) =
    track_all (track_subscription_intent recovery request) requests

abbrev subscribed : MqttPacketRequest → List SubEntry → Option (String × Option MqttPacketRequest)
subscribed request [] = none
subscribed request (entry ∷ _) = some (entry.topic_filter, some request)

abbrev unsubscribed : List String → Option (String × Option MqttPacketRequest)
unsubscribed [] = none
unsubscribed (filter ∷ _) = some (filter, none)

-- The change that a request asks for: under the first topic filter of a subscription the request
-- itself, under the first of an unsubscription nothing.
abbrev pub change : MqttPacketRequest → MqttWirePacket → Option (String × Option MqttPacketRequest)
change request (MqttWirePacket.v5_subscribe packet) = subscribed request packet.entries
change request (MqttWirePacket.v3_subscribe packet) = subscribed request packet.entries
change request (MqttWirePacket.v5_unsubscribe packet) = unsubscribed packet.entries
change request (MqttWirePacket.v3_unsubscribe packet) = unsubscribed packet.entries
change request (MqttWirePacket.v5_publish _) = none
change request (MqttWirePacket.v3_publish _) = none

abbrev pub changed :
    String
    → Option (String × Option MqttPacketRequest)
    → Option MqttPacketRequest
    → Option MqttPacketRequest
changed topic none before = before
changed topic (some (filter, wished)) before = if str_eq filter topic then wished else before

-- What the last request about the topic asks for.
abbrev pub last_wish :
    String → List MqttPacketRequest → Option MqttPacketRequest → Option MqttPacketRequest
last_wish topic [] before = before
last_wish topic (request ∷ requests) before =
    last_wish topic requests (changed topic (change request request.packet) before)

module _ (desired : List (String × MqttPacketRequest)) (id topic : String) where
  abbrev IsTracked : MqttWirePacket → Type 0
  IsTracked packet =
      get str_eq
        (track_at desired (record { command_id = id; packet = packet }) (request_topic_key packet))
        topic
      ≡ changed topic (change (record { command_id = id; packet = packet }) packet)
          (get str_eq desired topic)

  v5_subscribed :
      (packet_id : ℕ) (props : List Property) (entries : List SubEntry)
      → IsTracked (
          MqttWirePacket.v5_subscribe
            (record { packet_id = packet_id; entries = entries; props = props }))
  unfolding request_topic_key
  v5_subscribed packet_id props [] = refl
  v5_subscribed packet_id props (entry ∷ entries) =
      get-insert str_eq eq_iff desired entry.topic_filter topic _

  v3_subscribed :
      (packet_id : ℕ) (entries : List SubEntry)
      → IsTracked
          (MqttWirePacket.v3_subscribe (record { packet_id = packet_id; entries = entries }))
  unfolding request_topic_key
  v3_subscribed packet_id [] = refl
  v3_subscribed packet_id (entry ∷ entries) =
      get-insert str_eq eq_iff desired entry.topic_filter topic _

  v5_unsubscribed :
      (packet_id : ℕ) (props : List Property) (entries : List String)
      → IsTracked (
          MqttWirePacket.v5_unsubscribe
            (record { packet_id = packet_id; entries = entries; props = props }))
  unfolding request_topic_key
  v5_unsubscribed packet_id props [] = refl
  v5_unsubscribed packet_id props (filter ∷ entries) = get-remove str_eq eq_iff desired filter topic

  v3_unsubscribed :
      (packet_id : ℕ) (entries : List String)
      → IsTracked
          (MqttWirePacket.v3_unsubscribe (record { packet_id = packet_id; entries = entries }))
  unfolding request_topic_key
  v3_unsubscribed packet_id [] = refl
  v3_unsubscribed packet_id (filter ∷ entries) = get-remove str_eq eq_iff desired filter topic

  tracked : (packet : MqttWirePacket) → IsTracked packet
  unfolding request_topic_key
  tracked (MqttWirePacket.v5_subscribe packet) =
      v5_subscribed packet.packet_id packet.props packet.entries
  tracked (MqttWirePacket.v3_subscribe packet) = v3_subscribed packet.packet_id packet.entries
  tracked (MqttWirePacket.v5_unsubscribe packet) =
      v5_unsubscribed packet.packet_id packet.props packet.entries
  tracked (MqttWirePacket.v3_unsubscribe packet) = v3_unsubscribed packet.packet_id packet.entries
  tracked (MqttWirePacket.v5_publish packet) = refl
  tracked (MqttWirePacket.v3_publish packet) = refl

-- A request counts for its first topic filter. After any requests the driver has, for each topic, the
-- last subscription that counts for it and that no unsubscription counting for it followed; where no
-- request counts for the topic, it has what it had before.
pub track_all-last_wish :
    (recovery : Recovery) (requests : List MqttPacketRequest) (topic : String)
    → get str_eq (track_all recovery requests).desired_subscriptions topic
      ≡ last_wish topic requests (get str_eq recovery.desired_subscriptions topic)
unfolding track_all
track_all-last_wish recovery [] topic = refl
track_all-last_wish recovery (request ∷ requests) topic =
    track_all-last_wish (track_subscription_intent recovery request) requests topic
    ∙ ap (last_wish topic requests) (
        unfold track_subscription_intent in
        tracked recovery.desired_subscriptions request.command_id topic request.packet)
