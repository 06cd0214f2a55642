-- ===== src/Mqtt/Driver/HandedOver.antt =====
-- Publishing while a listener runs.
use ferredge.Prelude.{
  zero, suc, ◌+◌, ◌*◌, ◌≤◌, ◌<◌, leb, ltb, length, drop, [], ◌∷◌, ◌++◌, is_some, Bool-cases, inl,
  inr, ◌⊎◌, arith, ◌≡◌, refl, ℕ, String, Option, none, some, List, Result, ok, err, Bool, true,
  false, is_ok, not, ◌||◌, if◌then◌else◌,
}
use ferredge.Mqtt.Package.{MqttCore}
use ferredge.Mqtt.Types.{MqttPacketRequest}
use ferredge.Mqtt.Action.{◌>>=◌, done}
use ferredge.Mqtt.Session.{Runtime}
use ferredge.Mqtt.Recovery.{push_bounded, enqueue_recovery_request}
use ferredge.Mqtt.DriverState.{
  Received, MqttDriver, Surroundings, SessionCommandKind, SessionCommandResult,
}
use ferredge.Mqtt.Driver.{
  told_by, await_response, after_sending, send_listener_command, told, send_by_listener, send,
  publish,
}

-- Behind what is queued; a queue without room for it loses its oldest.
abbrev pub queued_behind : {A : Type 0} → ℕ → List A → A → List A
queued_behind bound queue request =
    if ltb (length queue) bound then queue ++ request ∷ [] else drop 1 queue ++ request ∷ []

-- What publishing through the listener brings, from the listener's answer and what it left.
abbrev pub IsHandedOver :
    {core : MqttCore} {S : Type 0}
    → MqttPacketRequest
    → Option (Result SessionCommandResult String × MqttDriver core S)
    → Option (Result (Unit {0}) String × MqttDriver core S)
    → Type 0
IsHandedOver request none answer = answer ≡ none
IsHandedOver request (some (told, left)) none = ⊥
IsHandedOver request (some (told, left)) (some (answer, after)) =
    (is_ok answer ≡ (is_ok told || left.dvc.endpoint.reconnect.queue_requests_while_disconnected))
    × (after.recovery.recovery_queue ≡ (
        if is_ok told || not left.dvc.endpoint.reconnect.queue_requests_while_disconnected
        then left.recovery.recovery_queue
        else queued_behind left.dvc.endpoint.reconnect.max_queued_requests
            left.recovery.recovery_queue request))
    × (after.recovery.desired_subscriptions ≡ left.recovery.desired_subscriptions)

Received-cases :
    (r : Received)
    → (r ≡ Received.empty)
      ⊎ (((result : Result SessionCommandResult String) × (r ≡ Received.response result))
          ⊎ ((r ≡ Received.closed) ⊎ (r ≡ Received.other)))
Received-cases Received.empty = inl refl
Received-cases (Received.response result) = inr (inl (result, refl))
Received-cases Received.closed = inr (inr (inl refl))
Received-cases Received.other = inr (inr (inr refl))

push_bounded_lem :
    (bound : ℕ) (queue : List MqttPacketRequest) (request : MqttPacketRequest)
    → push_bounded bound queue request ≡ queued_behind bound queue request
unfolding push_bounded
push_bounded_lem bound queue request = elim (Bool-cases (ltb (length queue) bound)) [
  | inl short ↦ let room : leb bound (length queue) ≡ false = ground arith in rw (short, room) refl
  | inr full ↦
      let no_room : leb bound (length queue) ≡ true = ground arith in rw (full, no_room) refl
]

module _ (core : MqttCore) (lossy : List ℕ → String) (from_utf8 : List ℕ → Option String)
    {S : Type 0} (runtime : Runtime S) (surroundings : Surroundings core S runtime.stream.Error)
    (request : MqttPacketRequest) where
  abbrev switched : Bool → MqttDriver core S → MqttDriver core S
  switched on left = record left {
    dvc = record left.dvc {
      endpoint = record left.dvc.endpoint {
        reconnect = record left.dvc.endpoint.reconnect { queue_requests_while_disconnected = on };
      };
    };
  }

  refused :
      (on : Bool) (error : String) (left driver : MqttDriver core S)
      → IsHandedOver request (some (err error, switched on left)) (
          ((λ _. some (
                told core lossy from_utf8 runtime surroundings request
                  (err error, switched on left)))
              >>= λ _. done tt)
            driver)
  unfolding ◌>>=◌ enqueue_recovery_request
  refused true error left driver = (
    refl,
    push_bounded_lem left.dvc.endpoint.reconnect.max_queued_requests left.recovery.recovery_queue
        request,
    refl,
  )
  refused false error left driver = (refl, refl, refl)

  handed_over :
      (answer : Option (Result SessionCommandResult String × MqttDriver core S))
      → (driver : MqttDriver core S)
      → IsHandedOver request answer (
          ((λ _. told_by core lossy from_utf8 runtime surroundings request answer) >>= λ _. done tt)
            driver)
  unfolding ◌>>=◌
  handed_over none driver = refl
  handed_over (some (ok result, left)) driver = (refl, refl, refl)
  handed_over (some (err error, left)) driver =
      refused left.dvc.endpoint.reconnect.queue_requests_while_disconnected error left driver

  module _ (sleeps : (n : ℕ) → 10 * n ≤ surroundings.elapsed_ms n) (kind : SessionCommandKind) where
    await_response-answers :
        (fuel poll : ℕ) (driver : MqttDriver core S)
        → 75 < fuel + poll
        → poll ≤ 75
        → is_some (await_response core lossy from_utf8 runtime surroundings fuel kind poll driver)
          ≡ true
    unfolding await_response
    await_response-answers zero poll driver enough early = absurd (omega arith)
    await_response-answers (suc fuel) poll driver enough early =
        elim (Received-cases (surroundings.try_recv kind poll driver)) [
          | inl waits ↦ elim (Bool-cases (leb 750 (surroundings.elapsed_ms poll))) [
            | inl late ↦ rw (await_response, waits, late) refl
            | inr still ↦
                let before : surroundings.elapsed_ms poll < 750 = ground arith in
                rw (await_response, waits, still)
                  (await_response-answers fuel (suc poll) (surroundings.meanwhile driver)
                    (omega arith) (omega (arith, sleeps poll, before)))
          ]
          | inr (inl (result, e)) ↦ rw (await_response, e) refl
          | inr (inr (inl e)) ↦ rw (await_response, e) refl
          | inr (inr (inr e)) ↦ rw (await_response, e) refl
        ]

    after_sending-answers :
        (fuel : ℕ) (sent : Option (Bool × MqttDriver core S))
        → 75 < fuel
        → is_some (after_sending core lossy from_utf8 runtime surroundings fuel kind sent)
          ≡ is_some sent
    after_sending-answers fuel none enough = refl
    after_sending-answers fuel (some (false, driver)) enough = refl
    after_sending-answers fuel (some (true, driver)) enough =
        await_response-answers fuel 0 driver (omega arith) (omega arith)

    send_listener_command-answers :
        (fuel : ℕ) (driver : MqttDriver core S)
        → 75 < fuel
        → is_some (send_listener_command core lossy from_utf8 runtime surroundings fuel kind driver)
          ≡ (not driver.listener_command_sender || is_some (surroundings.send_command kind driver))
    unfolding send_listener_command
    send_listener_command-answers fuel driver enough = by_sender driver.listener_command_sender
      where
        by_sender :
            (there : Bool)
            → is_some (
                send_listener_command core lossy from_utf8 runtime surroundings fuel kind
                  (record driver { listener_command_sender = there }))
              ≡ (not there
                  || is_some (
                      surroundings.send_command kind
                        (record driver { listener_command_sender = there })))
        by_sender false = refl
        by_sender true =
            after_sending-answers fuel
              (surroundings.send_command kind (record driver { listener_command_sender = true }))
              enough

  -- While the listener runs and each sleep between polls takes its 10 ms, the listener's way has an
  -- answer within 76 polls, except where its channel never takes the command; then publishing has none
  -- either. Where there is one, publishing fails only if the listener's way failed and the queue is
  -- disabled. The request is queued exactly if the listener's way failed and the queue is enabled,
  -- behind what is queued, and a queue without room for it loses its oldest.
  pub publish-IsHandedOver :
      ((n : ℕ) → 10 * n ≤ surroundings.elapsed_ms n)
      → (fuel : ℕ) (driver : MqttDriver core S) → driver.listener_running ≡ true
      → 75 < fuel
      → (is_some (
            send_listener_command core lossy from_utf8 runtime surroundings fuel
              (SessionCommandKind.publish request)
              driver)
          ≡ (not driver.listener_command_sender
              || is_some (surroundings.send_command (SessionCommandKind.publish request) driver)))
        × IsHandedOver request
            (send_listener_command core lossy from_utf8 runtime surroundings fuel
              (SessionCommandKind.publish request)
              driver)
            (publish core lossy from_utf8 runtime surroundings fuel request driver)
  unfolding publish send send_by_listener ◌>>=◌
  publish-IsHandedOver sleeps fuel driver running enough = (
    send_listener_command-answers sleeps (SessionCommandKind.publish request) fuel driver enough,
    by_listener driver.listener_running running,
  )
    where
      by_listener :
          (b : Bool)
          → b ≡ true
          → IsHandedOver request
              (send_listener_command core lossy from_utf8 runtime surroundings fuel
                (SessionCommandKind.publish request)
                (record driver { listener_running = b }))
              (publish core lossy from_utf8 runtime surroundings fuel request
                (record driver { listener_running = b }))
      by_listener false e = cc
      by_listener true e =
          handed_over
            (send_listener_command core lossy from_utf8 runtime surroundings fuel
              (SessionCommandKind.publish request) (record driver { listener_running = true }))
            driver
