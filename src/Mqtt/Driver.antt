-- ===== src/Mqtt/Driver.antt =====
-- crates/ferredge-proto-mqtt/src/lib.rs: `MqttDriver`, with its locks taken, connecting, replaying and
-- sending requests.
pub mod Settled
pub mod HandedOver
use ferredge.Prelude.{
  leb, ℕ, zero, suc, Bool, true, false, String, str_append, str_eq, strip_prefix, Option, none,
  some, List, [], ◌∷◌, ◌++◌, Result, ok, err, map, map_ok, map_err, unwrap_or, if◌then◌else◌,
}
use ferredge.Core.Net.{normalize_host_port}
use ferredge.Core.Command.{RoutedEvent, RoutedMessage}
use ferredge.Core.Backoff.{BrokerReconnectConfig}
use ferredge.Mqtt.Package.{MqttCore, Packet}
use ferredge.Mqtt.Types.{
  MqttDevice, MqttEndpointConfig, MqttProtocolVersion, MqttConnackProperties, MqttPacketRequest,
  preferred_protocol_version,
}
use ferredge.Mqtt.Action.{Action, ◌>>=◌, ◌>>◌, done, fail, lift, modify}
use ferredge.Mqtt.Inbound.{new_decoder}
use ferredge.Mqtt.Connect.{build_connect_packet}
use ferredge.Mqtt.Auth.{MqttAuthProvider}
use ferredge.Mqtt.Session.{
  Runtime, MqttClientSession, Session, Watch, checked_send, handle_connection_events,
  send_packet_request,
}
use ferredge.Mqtt.Reading.{read_from_session}
use ferredge.Mqtt.DriverState.{
  MqttListenerStatus, Received, SessionCommandKind, SessionCommandResult, MqttDriver, Surroundings,
}
use ferredge.Mqtt.Recovery.{Recovery, track_subscription_intent, enqueue_recovery_request}

unfoldable pub normalize_broker_addr : String → String
unfolding normalize_host_port
normalize_broker_addr broker =
    normalize_host_port
      (unwrap_or (strip_prefix "mqtt://" broker) (unwrap_or (strip_prefix "tcp://" broker) broker))
      1883

abbrev pub event_of : RoutedMessage → List RoutedEvent
event_of (RoutedMessage.event event) = event ∷ []
event_of _ = []

abbrev pub events_of : List RoutedMessage → List RoutedEvent
events_of [] = []
events_of (message ∷ messages) = event_of message ++ events_of messages

-- What a CONNACK says of the connection: nothing yet, accepted, or why not.
abbrev pub connack_verdict : Option MqttConnackProperties → Option (Result (Unit {0}) String)
connack_verdict none = none
connack_verdict (some connack) = some (
    if str_eq (unwrap_or connack.reason_code "") "Success"
    then ok tt
    else err (
        str_append "mqtt connect rejected: "
          (unwrap_or connack.reason_string (unwrap_or connack.reason_code ""))))

-- Events go to the sink in order, up to the first that it refuses.
abbrev pub forward : (RoutedEvent → Bool) → List RoutedEvent → Result (Unit {0}) String
forward handle [] = ok tt
forward handle (event ∷ events) =
    let rest = forward handle events in
    if handle event then rest else err "failed to forward MQTT event to sink"

unfoldable pub listener_status :
    {core : MqttCore} {S : Type 0} → MqttDriver core S → MqttListenerStatus
listener_status driver = elim driver.listener_running [
  | true ↦ MqttListenerStatus.running
  | false ↦ elim driver.listener_error [
    | some error ↦ MqttListenerStatus.failed error
    | none ↦ MqttListenerStatus.stopped
  ]
]

module _ (core : MqttCore) (lossy : List ℕ → String) (from_utf8 : List ℕ → Option String)
    {S : Type 0} (runtime : Runtime S)
    (surroundings : Surroundings core S runtime.stream.Error) where
  abbrev pub Driver : Type 0
  Driver = MqttDriver core S

  abbrev pub watch_of : Driver → Watch
  watch_of driver = record { negotiated = true; auth_handler = some driver.auth_handler }

  abbrev pub Client : Type 0
  Client = MqttClientSession core S

  -- A step of a session that shares the driver's CONNACK state.
  abbrev pub on_session :
      {A : Type 0} → (Watch → Action Client A) → Client → Action Driver (Result A String × Client)
  on_session step session driver =
      elim (step (watch_of driver)
        (record session { negotiated_connack = driver.negotiated_connack })) [
          | none ↦ none
          | some (answer, session') ↦ some (
            ok (answer, session'),
            record driver { negotiated_connack = session'.negotiated_connack },
          )
        ]

  abbrev text_error : {A : Type 0} → String → Result A runtime.stream.Error → Result A String
  text_error text answer = map_err (λ e. str_append text (runtime.stream.debug e)) answer

  -- `MQTT_CONNECT_IO_TIMEOUT_MS` and `MQTT_ACK_READ_TIMEOUT_MS`, in nanoseconds.
  abbrev connect_io_timeout : Option ℕ
  connect_io_timeout = some 1_000_000_000

  abbrev ack_read_timeout : Option ℕ
  ack_read_timeout = some 250_000_000

  abbrev with_timeouts : S → Action Driver S
  with_timeouts socket =
      let (read_set, socket') = runtime.set_read_timeout socket connect_io_timeout in
      let (write_set, socket'') = surroundings.set_write_timeout socket' connect_io_timeout in
      lift (text_error "failed to set MQTT read timeout: " read_set)
      >> lift (text_error "failed to set MQTT write timeout: " write_set)
      >> done socket''

  abbrev new_session : MqttDriver core S → S → Client
  new_session driver socket = record {
    socket = socket;
    connection = surroundings.new_connection (preferred_protocol_version driver.dvc.endpoint);
    protocol_version = preferred_protocol_version driver.dvc.endpoint;
    keepalive_secs = driver.dvc.endpoint.keepalive_secs;
    last_activity = runtime.now socket;
    awaiting_pingresp = false;
    inbound_decoder = new_decoder driver.dvc.id;
    authentication_method = driver.dvc.endpoint.connect_properties.authentication_method;
    negotiated_connack = driver.negotiated_connack;
  }

  abbrev greet : Packet → Watch → Action Client (Unit {0})
  greet packet watch =
      checked_send core lossy from_utf8 runtime packet
      >>= handle_connection_events core lossy from_utf8 runtime watch
      >> done tt

  abbrev succeeded : {A : Type 0} → Result A String × Client → Action Driver Client
  succeeded (ok _, session) = done session
  succeeded (err error, session) = fail error

  abbrev pub await_round :
      Action Driver Client → Option (Result (Unit {0}) String) → Client → Action Driver Client
  await_round rest none session = rest
  await_round rest (some (ok _)) session = done session
  await_round rest (some (err error)) session = fail error

  -- The `loop` that reads until there is a CONNACK state.
  unfoldable pub await_connack : ℕ → Client → Action Driver Client
  unfolding read_from_session
  await_connack zero session driver = none
  await_connack (suc fuel) session driver =
      (on_session (λ watch. read_from_session core lossy from_utf8 runtime watch connect_io_timeout)
            session
          >>= succeeded
          >>= λ session'. λ driver'.
            await_round (await_connack fuel session') (connack_verdict driver'.negotiated_connack)
              session' driver')
        driver

  abbrev connect_session : ℕ → Action Driver (Unit {0})
  connect_session fuel driver =
      (lift (
            text_error "failed to connect to MQTT broker: "
              (surroundings.connect (normalize_broker_addr driver.dvc.endpoint.broker)))
          >>= with_timeouts
          >>= λ socket. lift (build_connect_packet core driver.dvc.endpoint) >>= λ packet.
              on_session (greet packet) (new_session driver socket)
              >>= succeeded
              >>= await_connack fuel
              >>= λ session. modify (λ driver'. record driver' { session = some session }))
        driver

  -- `ensure_connected_async`.
  unfoldable pub ensure_connected : ℕ → Action Driver (Unit {0})
  unfolding await_connack build_connect_packet preferred_protocol_version normalize_broker_addr
      new_decoder handle_connection_events
  ensure_connected fuel driver = elim driver.session [
    | some session ↦ some (ok tt, driver)
    | none ↦ connect_session fuel driver
  ]

  -- `take_session_wait_async`.
  unfoldable pub take_session_wait : ℕ → Action Driver Client
  take_session_wait zero driver = none
  take_session_wait (suc fuel) driver = elim driver.session [
    | some session ↦ some (ok session, record driver { session = none })
    | none ↦ elim driver.listener_running [
      | true ↦ take_session_wait fuel (surroundings.meanwhile driver)
      | false ↦ some (err "MQTT session not initialized", driver)
    ]
  ]

  -- A request sent, and what is read within the time for its acknowledgement.
  unfoldable pub exchange : MqttPacketRequest → Watch → Action Client (List RoutedMessage)
  unfolding send_packet_request read_from_session
  exchange request watch =
      send_packet_request core lossy from_utf8 runtime request
      >> read_from_session core lossy from_utf8 runtime watch ack_read_timeout

  abbrev pub enqueue : MqttPacketRequest → Driver → Result (Unit {0}) String × Driver
  enqueue request driver =
      let (answer, recovery) =
        enqueue_recovery_request driver.dvc.endpoint.reconnect driver.recovery request in
      (answer, record driver { recovery = recovery })

  -- The session is kept after an exchange that went well and given up otherwise; a request that failed
  -- while a listener runs is queued, if it can be.
  abbrev pub settle :
      MqttPacketRequest
      → Result (List RoutedMessage) String × Client
      → Action Driver (List RoutedMessage)
  settle request (ok messages, session) driver =
      some (ok messages, record driver { session = some session })
  settle request (err error, session) driver = elim driver.listener_running [
    | true ↦ some (ok [], (enqueue request (record driver { session = none })).1)
    | false ↦ some (err error, record driver { session = none })
  ]

  unfoldable pub send_directly : ℕ → MqttPacketRequest → Action Driver (List RoutedMessage)
  unfolding ensure_connected take_session_wait exchange enqueue_recovery_request
  send_directly fuel request =
      ensure_connected fuel
      >> take_session_wait fuel
      >>= on_session (exchange request)
      >>= settle request

  abbrev events_told : SessionCommandResult → List RoutedEvent
  events_told SessionCommandResult.done = []
  events_told (SessionCommandResult.events events) = events

  -- What the listener does not do is queued, if it can be.
  abbrev pub queued_instead :
      String → Result (Unit {0}) String × Driver → Result (List RoutedEvent) String × Driver
  queued_instead error (ok _, driver) = (ok [], driver)
  queued_instead error (err _, driver) = (err error, driver)

  abbrev pub told :
      MqttPacketRequest
      → Result SessionCommandResult String × Driver
      → Result (List RoutedEvent) String × Driver
  told request (ok result, driver) = (ok (events_told result), driver)
  told request (err error, driver) = queued_instead error (enqueue request driver)

  -- The polls for the response; the deadline is `MQTT_LISTENER_COMMAND_TIMEOUT_MS`.
  unfoldable pub await_response : ℕ → SessionCommandKind → ℕ → Action Driver SessionCommandResult
  await_response zero kind poll driver = none
  await_response (suc fuel) kind poll driver =
      let rest = await_response fuel kind (suc poll) (surroundings.meanwhile driver) in
      elim (surroundings.try_recv kind poll driver) [
        | Received.response result ↦ some (result, driver)
        | Received.empty ↦
            if leb 750 (surroundings.elapsed_ms poll)
            then some (err "MQTT listener command timed out", driver)
            else rest
        | Received.closed ↦ some (err "MQTT listener command response channel closed", driver)
        | Received.other ↦ some (err "MQTT listener command response unavailable", driver)
      ]

  abbrev pub after_sending :
      ℕ
      → SessionCommandKind
      → Option (Bool × Driver)
      → Option (Result SessionCommandResult String × Driver)
  after_sending fuel kind none = none
  after_sending fuel kind (some (false, driver)) =
      some (err "failed to send MQTT command to listener", driver)
  after_sending fuel kind (some (true, driver)) = await_response fuel kind 0 driver

  unfoldable pub send_listener_command : ℕ → SessionCommandKind → Action Driver SessionCommandResult
  unfolding await_response
  send_listener_command fuel kind driver = elim driver.listener_command_sender [
    | false ↦ some (err "MQTT listener command path is not initialized", driver)
    | true ↦ after_sending fuel kind (surroundings.send_command kind driver)
  ]

  abbrev pub told_by :
      MqttPacketRequest
      → Option (Result SessionCommandResult String × Driver)
      → Option (Result (List RoutedEvent) String × Driver)
  told_by request none = none
  told_by request (some answer) = some (told request answer)

  unfoldable pub send_by_listener :
      ℕ → SessionCommandKind → MqttPacketRequest → Action Driver (List RoutedEvent)
  unfolding enqueue_recovery_request send_listener_command
  send_by_listener fuel kind request driver =
      told_by request (send_listener_command fuel kind driver)

  unfoldable pub send :
      ℕ → SessionCommandKind → MqttPacketRequest → Action Driver (List RoutedEvent)
  unfolding send_by_listener send_directly
  send fuel kind request driver = elim driver.listener_running [
    | true ↦ send_by_listener fuel kind request driver
    | false ↦ (send_directly fuel request >>= λ messages. done (events_of messages)) driver
  ]

  unfoldable pub publish : ℕ → MqttPacketRequest → Action Driver (Unit {0})
  unfolding send
  publish fuel request = send fuel (SessionCommandKind.publish request) request >> done tt

  abbrev pub tracked : MqttPacketRequest → Action Driver (Unit {0})
  tracked request =
      modify
        (λ driver. record driver { recovery = track_subscription_intent driver.recovery request })

  unfoldable pub subscribe : ℕ → (RoutedEvent → Bool) → MqttPacketRequest → Action Driver (Unit {0})
  unfolding send track_subscription_intent
  subscribe fuel sink request =
      tracked request >> send fuel (SessionCommandKind.subscribe request) request >>= λ events.
      lift (forward sink events)

  unfoldable pub unsubscribe : ℕ → MqttPacketRequest → Action Driver (Unit {0})
  unfolding send track_subscription_intent
  unsubscribe fuel request =
      tracked request >> send fuel (SessionCommandKind.unsubscribe request) request >> done tt
