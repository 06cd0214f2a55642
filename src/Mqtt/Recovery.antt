-- ===== src/Mqtt/Recovery.antt =====
-- crates/ferredge-proto-mqtt/src/lib.rs: what the driver keeps for the time after a reconnect, with
-- its locks taken.
pub mod Desired
pub mod Queue
use ferredge.Prelude.{
  ℕ, Bool, true, false, String, Option, none, some, List, [], ◌∷◌, ◌++◌, Result, ok, err, length,
  leb, drop, map, map_option, if◌then◌else◌, str_eq,
}
use ferredge.Prelude.Map.{insert, remove}
use ferredge.Core.Backoff.{BrokerReconnectConfig}
use ferredge.Mqtt.Package.{SubEntry}
use ferredge.Mqtt.Types.{MqttWirePacket, MqttPacketRequest}

-- `desired_subscriptions` and `recovery_queue` of `MqttDriver`.
pub record Recovery : Type 0 where
  pub desired_subscriptions : List (String × MqttPacketRequest)
  pub recovery_queue : List MqttPacketRequest

abbrev pub first {ℓ} : {A : Type ℓ} → List A → Option A
first [] = none
first (x ∷ _) = some x

unfoldable pub request_topic_key : MqttWirePacket → Option String
request_topic_key (MqttWirePacket.v5_subscribe packet) =
    map_option (λ (entry : SubEntry). entry.topic_filter) (first packet.entries)
request_topic_key (MqttWirePacket.v3_subscribe packet) =
    map_option (λ (entry : SubEntry). entry.topic_filter) (first packet.entries)
request_topic_key (MqttWirePacket.v5_unsubscribe packet) = first packet.entries
request_topic_key (MqttWirePacket.v3_unsubscribe packet) = first packet.entries
request_topic_key _ = none

abbrev pub track :
    List (String × MqttPacketRequest)
    → String
    → MqttPacketRequest
    → MqttWirePacket
    → List (String × MqttPacketRequest)
track desired topic request (MqttWirePacket.v5_subscribe _) = insert str_eq desired topic request
track desired topic request (MqttWirePacket.v3_subscribe _) = insert str_eq desired topic request
track desired topic request (MqttWirePacket.v5_unsubscribe _) = remove str_eq desired topic
track desired topic request (MqttWirePacket.v3_unsubscribe _) = remove str_eq desired topic
track desired topic request _ = desired

abbrev pub track_at :
    List (String × MqttPacketRequest)
    → MqttPacketRequest
    → Option String
    → List (String × MqttPacketRequest)
track_at desired request none = desired
track_at desired request (some topic) = track desired topic request request.packet

unfoldable pub track_subscription_intent : Recovery → MqttPacketRequest → Recovery
unfolding request_topic_key insert remove
track_subscription_intent recovery request = record recovery {
  desired_subscriptions =
      track_at recovery.desired_subscriptions request (request_topic_key request.packet);
}

-- `VecDeque::push_back` after `pop_front` where the queue is full.
unfoldable pub push_bounded :
    ℕ → List MqttPacketRequest → MqttPacketRequest → List MqttPacketRequest
push_bounded max_queued_requests queue request =
    (if leb max_queued_requests (length queue) then drop 1 queue else queue) ++ request ∷ []

unfoldable pub enqueue_recovery_request :
    BrokerReconnectConfig → Recovery → MqttPacketRequest → Result (Unit {0}) String × Recovery
unfolding push_bounded
enqueue_recovery_request reconnect recovery request =
    if reconnect.queue_requests_while_disconnected
    then (
      ok tt,
      record recovery {
        recovery_queue = push_bounded reconnect.max_queued_requests recovery.recovery_queue request;
      },
    )
    else (err "MQTT recovery queue is disabled", recovery)
