-- ===== src/Mqtt/Replay/Drained.antt =====
-- What a replay sends, and what it leaves of the queue.
use ferredge.Prelude.{
  ap, ◌∙◌, if◌then◌else◌, ◌≡◌, refl, ℕ, String, Option, none, some, List, [], ◌∷◌, Result, ok, err,
  Bool, true, false, ◌++◌, ◌⊎◌, inl, inr,
}
use ferredge.Core.Backoff.{BrokerReconnectConfig}
use ferredge.Core.Command.{RoutedMessage, RoutedEvent}
use ferredge.Core.Net.WriteAll.{IsAnswered}
use ferredge.Mqtt.Package.{MqttCore}
use ferredge.Mqtt.Types.{MqttPacketRequest}
use ferredge.Mqtt.Action.{Action, ◌>>=◌}
use ferredge.Mqtt.Session.{Runtime, Watch, MqttClientSession}
use ferredge.Mqtt.DriverState.{Surroundings}
use ferredge.Mqtt.Driver.{events_of, exchange}
use ferredge.Mqtt.Driver.Settled.{exchange-Ends}
use ferredge.Mqtt.Recovery.{Recovery}
use ferredge.Mqtt.Replay.{map, replay_each, replay_desired, replay_recovery_state}

module _ {C : Type 0} (exchanging : MqttPacketRequest → Action C (List RoutedMessage)) where
  -- Every request was exchanged, in order, on the session that the one before left.
  pub data Replayed : List MqttPacketRequest → C → List RoutedEvent → C → Type 0 where
    nothing : {session : C} → Replayed [] session [] session
    next :
        {request : MqttPacketRequest} {requests : List MqttPacketRequest}
        {messages : List RoutedMessage} {events : List RoutedEvent} {before between after : C}
        → exchanging request before ≡ some (ok messages, between)
        → Replayed requests between events after
        → Replayed (request ∷ requests) before (events_of messages ++ events) after

  -- One request failed after those in front of it were exchanged; none behind it was.
  pub data Broken : List MqttPacketRequest → C → String → C → Type 0 where
    here :
        {request : MqttPacketRequest} {requests : List MqttPacketRequest} {error : String}
        {before after : C}
        → exchanging request before ≡ some (err error, after)
        → Broken (request ∷ requests) before error after
    later :
        {request : MqttPacketRequest} {requests : List MqttPacketRequest}
        {messages : List RoutedMessage} {error : String} {before between after : C}
        → exchanging request before ≡ some (ok messages, between)
        → Broken requests between error after
        → Broken (request ∷ requests) before error after

  abbrev IsRun :
      List MqttPacketRequest
      → C
      → Recovery
      → Option (Result (List RoutedEvent) String × (C × Recovery))
      → Type 0
  IsRun requests session recovery none = ⊥
  IsRun requests session recovery (some (ok events, (session', after))) =
      Replayed requests session events session' × (after ≡ recovery)
  IsRun requests session recovery (some (err error, (session', after))) =
      Broken requests session error session' × (after ≡ recovery)

  -- There is an answer. With events, what is wanted and then the queue was replayed, and the queue is
  -- empty. With an error, it is of a wanted subscription and nothing kept has changed, or it is of a
  -- queued request, and the queue is empty.
  abbrev pub IsReplayed :
      List MqttPacketRequest
      → C
      → Recovery
      → Option (Result (List RoutedEvent) String × (C × Recovery))
      → Type 0
  IsReplayed wanted session recovery none = ⊥
  IsReplayed wanted session recovery (some (ok events, (session', after))) =
      (between : C) × (first : List RoutedEvent) × (second : List RoutedEvent) × Replayed wanted
        session first between
      × Replayed recovery.recovery_queue between second session'
      × (events ≡ first ++ second)
      × (after ≡ record recovery { recovery_queue = [] })
  IsReplayed wanted session recovery (some (err error, (session', after))) =
      (Broken wanted session error session' × (after ≡ recovery))
      ⊎ ((between : C) × (first : List RoutedEvent) × Replayed wanted session first between
          × Broken recovery.recovery_queue between error session'
          × (after ≡ record recovery { recovery_queue = [] }))

-- The requests of the desired subscriptions, where they are to be replayed.
abbrev pub wanted_of : BrokerReconnectConfig → Recovery → List MqttPacketRequest
wanted_of reconnect recovery =
    if reconnect.replay_subscriptions
    then map (λ (entry : String × MqttPacketRequest). entry.1) recovery.desired_subscriptions
    else []

module _ (core : MqttCore) (lossy : List ℕ → String) (from_utf8 : List ℕ → Option String)
    {S : Type 0} (runtime : Runtime S) (surroundings : Surroundings core S runtime.stream.Error)
    (watch : Watch) where
  abbrev pub exchanging : MqttPacketRequest → Action (MqttClientSession core S) (List RoutedMessage)
  exchanging request session =
      exchange core lossy from_utf8 runtime surroundings request watch session

  abbrev Answer : Type 0
  Answer = Option (Result (List RoutedEvent) String × (MqttClientSession core S × Recovery))

  module _ (request : MqttPacketRequest) (requests : List MqttPacketRequest)
      (recovery : Recovery) where
    after_one :
        (messages : List RoutedMessage) (session between : MqttClientSession core S)
        → exchanging request session ≡ some (ok messages, between)
        → (answer : Answer)
        → replay_each core lossy from_utf8 runtime surroundings watch requests (between, recovery)
          ≡ answer
        → IsRun exchanging requests between recovery answer
        → IsRun exchanging (request ∷ requests) session recovery (
            replay_each core lossy from_utf8 runtime surroundings watch
              (request ∷ requests)
              (session, recovery))
    unfolding replay_each ◌>>=◌
    after_one messages session between e none f h = absurd h
    after_one messages session between e (some (ok events, (session', after))) f (run, kept) =
        rw (replay_each, e, f, IsRun) (next e run, kept)
    after_one messages session between e (some (err error, (session', after))) f (run, kept) =
        rw (replay_each, e, f, IsRun) (later e run, kept)

    one :
        ((session : MqttClientSession core S)
          → IsRun exchanging requests session recovery (
              replay_each core lossy from_utf8 runtime surroundings watch requests
                (session, recovery)))
        → (session : MqttClientSession core S)
          (answer : Option (Result (List RoutedMessage) String × MqttClientSession core S))
        → exchanging request session ≡ answer
        → IsAnswered answer
        → IsRun exchanging (request ∷ requests) session recovery (
            replay_each core lossy from_utf8 runtime surroundings watch
              (request ∷ requests)
              (session, recovery))
    unfolding replay_each ◌>>=◌
    one rest session none e answered = absurd answered
    one rest session (some (ok messages, between)) e answered =
        after_one messages session between e _ refl (rest between)
    one rest session (some (err error, between)) e answered =
        rw (replay_each, e, IsRun) (here e, refl)

  replay_each-IsRun :
      (requests : List MqttPacketRequest) (recovery : Recovery) (session : MqttClientSession core S)
      → IsRun exchanging requests session recovery
          (replay_each core lossy from_utf8 runtime surroundings watch requests (session, recovery))
  unfolding replay_each
  replay_each-IsRun [] recovery session = (nothing, refl)
  replay_each-IsRun (request ∷ requests) recovery session =
      one request requests recovery (replay_each-IsRun requests recovery) session _ refl
        ((exchange-Ends core lossy from_utf8 runtime surroundings request watch).answers session)

  replay_desired-IsRun :
      (reconnect : BrokerReconnectConfig) (recovery : Recovery) (session : MqttClientSession core S)
      → IsRun exchanging (wanted_of reconnect recovery) session recovery (
          replay_desired core lossy from_utf8 runtime surroundings watch reconnect
            (session, recovery))
  replay_desired-IsRun reconnect recovery session = by_switch reconnect.replay_subscriptions
    where
      by_switch :
          (b : Bool)
          → IsRun exchanging
              (wanted_of (record reconnect { replay_subscriptions = b }) recovery)
              session
              recovery
              (replay_desired core lossy from_utf8 runtime surroundings watch
                (record reconnect { replay_subscriptions = b })
                (session, recovery))
      by_switch true = replay_each-IsRun _ recovery session
      by_switch false = (nothing, refl)

  module _ (reconnect : BrokerReconnectConfig) (session : MqttClientSession core S)
      (recovery : Recovery) where
    abbrev emptied : Recovery
    emptied = record recovery { recovery_queue = [] }

    abbrev answered : Answer
    answered =
        replay_recovery_state core lossy from_utf8 runtime surroundings watch reconnect
          (session, recovery)

    after_queue :
        (first : List RoutedEvent) (between : MqttClientSession core S)
        → replay_desired core lossy from_utf8 runtime surroundings watch reconnect
            (session, recovery)
          ≡ some (ok first, (between, recovery))
        → Replayed exchanging (wanted_of reconnect recovery) session first between
        → (answer : Answer)
        → replay_each core lossy from_utf8 runtime surroundings watch recovery.recovery_queue
            (between, emptied)
          ≡ answer
        → IsRun exchanging recovery.recovery_queue between emptied answer
        → IsReplayed exchanging (wanted_of reconnect recovery) session recovery answered
    unfolding replay_recovery_state ◌>>=◌
    after_queue first between e wanted none f h = absurd h
    after_queue first between e wanted (some (ok events, (session', after))) f (run, kept) =
        rw (replay_recovery_state, e, f, IsReplayed)
          (between, first, events, wanted, run, refl, kept)
    after_queue first between e wanted (some (err error, (session', after))) f (run, kept) =
        rw (replay_recovery_state, e, f, IsReplayed) (inr (between, first, wanted, run, kept))

    after_wanted :
        (answer : Answer)
        → replay_desired core lossy from_utf8 runtime surroundings watch reconnect
            (session, recovery)
          ≡ answer
        → IsRun exchanging (wanted_of reconnect recovery) session recovery answer
        → IsReplayed exchanging (wanted_of reconnect recovery) session recovery answered
    unfolding replay_recovery_state ◌>>=◌
    after_wanted none e h = absurd h
    after_wanted (some (ok first, (between, after))) e (run, kept) =
        after_queue first between (e ∙ ap (λ r. some (ok first, (between, r))) kept) run _ refl
          (replay_each-IsRun recovery.recovery_queue emptied between)
    after_wanted (some (err error, (session', after))) e (run, kept) =
        rw (replay_recovery_state, e, IsReplayed) (inl (run, kept))

    -- Replaying always answers, whatever the network does. With events, the desired subscriptions, if
    -- they are to be replayed, and then the queued requests were exchanged in order, each on the session
    -- that the one before left; the events are theirs, the queue is empty, and the desired
    -- subscriptions are kept. With an error, a desired subscription failed and the queue is as it was;
    -- or all of them were exchanged and a queued request failed: those in front of it were exchanged,
    -- and the queue is empty, although it and those behind it were not.
    pub replay_recovery_state-IsReplayed :
        IsReplayed exchanging (wanted_of reconnect recovery) session recovery (
          replay_recovery_state core lossy from_utf8 runtime surroundings watch reconnect
            (session, recovery))
    replay_recovery_state-IsReplayed =
        after_wanted _ refl (replay_desired-IsRun reconnect recovery session)
