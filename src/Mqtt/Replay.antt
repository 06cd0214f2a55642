-- ===== src/Mqtt/Replay.antt =====
-- crates/ferredge-proto-mqtt/src/lib.rs: `replay_recovery_state_on_session_async`, with its locks taken.
pub mod Drained
use ferredge.Prelude.{
  true, false, String, ℕ, Option, none, some, List, [], ◌∷◌, ◌++◌, Result, ok, err, map,
}
use ferredge.Core.Backoff.{BrokerReconnectConfig}
use ferredge.Core.Command.{RoutedEvent, RoutedMessage}
use ferredge.Mqtt.Package.{MqttCore}
use ferredge.Mqtt.Types.{MqttPacketRequest}
use ferredge.Mqtt.Action.{Action, ◌>>=◌, ◌>>◌, done}
use ferredge.Mqtt.Session.{Runtime, MqttClientSession, Watch}
use ferredge.Mqtt.DriverState.{Surroundings}
use ferredge.Mqtt.Recovery.{Recovery}
use ferredge.Mqtt.Driver.{exchange, events_of}

module _ (core : MqttCore) (lossy : List ℕ → String) (from_utf8 : List ℕ → Option String)
    {S : Type 0} (runtime : Runtime S) (surroundings : Surroundings core S runtime.stream.Error)
    (watch : Watch) where
  -- The session that is put back to work, and what the driver kept for it.
  abbrev pub Replaying : Type 0
  Replaying = MqttClientSession core S × Recovery

  abbrev pub exchanged : MqttPacketRequest → Action Replaying (List RoutedMessage)
  exchanged request (session, recovery) =
      elim (exchange core lossy from_utf8 runtime surroundings request watch session) [
        | none ↦ none
        | some (answer, session') ↦ some (answer, (session', recovery))
      ]

  unfoldable pub replay_each : List MqttPacketRequest → Action Replaying (List RoutedEvent)
  unfolding exchange
  replay_each [] = done []
  replay_each (request ∷ requests) = do
    messages ← exchanged request
    events ← replay_each requests
    done (events_of messages ++ events)

  abbrev desired : Recovery → List MqttPacketRequest
  desired recovery =
      map (λ (entry : String × MqttPacketRequest). entry.1) recovery.desired_subscriptions

  abbrev pub replay_desired : BrokerReconnectConfig → Action Replaying (List RoutedEvent)
  replay_desired reconnect (session, recovery) = elim reconnect.replay_subscriptions [
    | true ↦ replay_each (desired recovery) (session, recovery)
    | false ↦ some (ok [], (session, recovery))
  ]

  -- `queue.drain(..)`.
  abbrev pub drain : Action Replaying (List MqttPacketRequest)
  drain (session, recovery) =
      some (ok recovery.recovery_queue, (session, record recovery { recovery_queue = [] }))

  unfoldable pub replay_recovery_state : BrokerReconnectConfig → Action Replaying (List RoutedEvent)
  unfolding replay_each
  replay_recovery_state reconnect = do
    recovered ← replay_desired reconnect
    queued ← drain
    events ← replay_each queued
    done (recovered ++ events)
