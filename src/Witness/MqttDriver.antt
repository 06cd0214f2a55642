-- ===== src/Witness/MqttDriver.antt =====
-- The theorems on the MQTT driver at concrete data.
use ferredge.Prelude.{
  map_option, some, err, is_some, true, arith, ◌≡◌, refl, none, [], ◌∷◌, ◌++◌, str_eq,
}
use ferredge.Prelude.Map.{get}
use ferredge.Mqtt.Session.{unwatched}
use ferredge.Mqtt.DriverState.{SessionCommandKind}
use ferredge.Mqtt.Driver.{publish, send_listener_command}
use ferredge.Mqtt.Driver.Settled.{IsSettled, publish-IsSettled}
use ferredge.Mqtt.Driver.HandedOver.{IsHandedOver, publish-IsHandedOver}
use ferredge.Mqtt.Replay.{replay_recovery_state}
use ferredge.Mqtt.Replay.Drained.{exchanging, IsReplayed, replay_recovery_state-IsReplayed}
use ferredge.Mqtt.Recovery.Queue.{enqueue_all, newest, enqueue_all-newest}
use ferredge.Mqtt.Recovery.Desired.{track_all, last_wish, track_all-last_wish}
use ferredge.Witness.MqttData.{
  accepting, letter, asking_request, subscribe_request, unsubscribe_request, wire, deaf_listener,
  live_session, nothing_kept, quiet_driver, listening_driver,
}

publish-IsSettled_example :
    IsSettled quiet_driver
      (publish accepting letter (λ _. none) wire deaf_listener 1 asking_request quiet_driver)
publish-IsSettled_example =
    publish-IsSettled accepting letter (λ _. none) wire deaf_listener asking_request quiet_driver
      refl 0 live_session refl

publish-IsHandedOver_example :
    (is_some (
        send_listener_command accepting letter
          (λ _. none)
          wire
          deaf_listener
          100
          (SessionCommandKind.publish asking_request)
          listening_driver)
      ≡ true)
    × IsHandedOver asking_request
        (send_listener_command accepting letter
          (λ _. none)
          wire
          deaf_listener
          100
          (SessionCommandKind.publish asking_request)
          listening_driver)
        (publish accepting letter
          (λ _. none)
          wire
          deaf_listener
          100
          asking_request
          listening_driver)
publish-IsHandedOver_example =
    publish-IsHandedOver accepting letter (λ _. none) wire deaf_listener asking_request
      (λ n. omega arith) 100 listening_driver refl (omega arith)

-- The 76th poll finds the time over.
timed_out :
    map_option
      (λ answer. answer.0)
      (send_listener_command accepting letter
        (λ _. none)
        wire
        deaf_listener
        76
        (SessionCommandKind.publish asking_request)
        listening_driver)
    ≡ some (err "MQTT listener command timed out")
unfolding send_listener_command
timed_out = refl

replay_recovery_state-IsReplayed_example :
    IsReplayed
      (exchanging accepting letter (λ _. none) wire deaf_listener unwatched)
      []
      live_session
      (record { desired_subscriptions = []; recovery_queue = asking_request ∷ [] })
      (replay_recovery_state accepting letter
        (λ _. none)
        wire
        deaf_listener
        unwatched
        quiet_driver.dvc.endpoint.reconnect
        (live_session, record { desired_subscriptions = []; recovery_queue = asking_request ∷ [] }))
replay_recovery_state-IsReplayed_example =
    replay_recovery_state-IsReplayed accepting letter (λ _. none) wire deaf_listener unwatched
      quiet_driver.dvc.endpoint.reconnect live_session
      (record { desired_subscriptions = []; recovery_queue = asking_request ∷ [] })

enqueue_all-newest_example :
    (enqueue_all quiet_driver.dvc.endpoint.reconnect nothing_kept
      (asking_request ∷ subscribe_request ∷ [])).recovery_queue
    ≡ newest 8 ([] ++ asking_request ∷ subscribe_request ∷ [])
enqueue_all-newest_example =
    enqueue_all-newest quiet_driver.dvc.endpoint.reconnect nothing_kept []
      (asking_request ∷ subscribe_request ∷ []) refl refl

track_all-last_wish_example :
    get str_eq
      (track_all nothing_kept (subscribe_request ∷ asking_request ∷ [])).desired_subscriptions
      "lamps/+"
    ≡ last_wish "lamps/+"
        (subscribe_request ∷ asking_request ∷ [])
        (get str_eq nothing_kept.desired_subscriptions "lamps/+")
track_all-last_wish_example =
    track_all-last_wish nothing_kept (subscribe_request ∷ asking_request ∷ []) "lamps/+"

-- What was unsubscribed is not subscribed to again.
unsubscribed :
    (track_all nothing_kept (subscribe_request ∷ unsubscribe_request ∷ [])).desired_subscriptions
    ≡ []
unfolding track_all
unsubscribed = refl
