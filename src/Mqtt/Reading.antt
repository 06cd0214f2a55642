-- ===== src/Mqtt/Reading.antt =====
-- crates/ferredge-proto-mqtt/src/runtime.rs: reading from the session, its keepalive and its end.
pub mod Ends
use ferredge.Prelude.{
  ℕ, Bool, true, false, String, Option, none, some, List, [], ◌∷◌, Result, ok, err, ltb, ◌==◌, ◌*◌,
  ◌-◌, if◌then◌else◌, str_append,
}
use ferredge.Core.Command.{RoutedMessage}
use ferredge.Mqtt.Package.{MqttCore, Packet, DisconnectReasonCode, checked}
use ferredge.Mqtt.Types.{MqttProtocolVersion}
use ferredge.Mqtt.Action.{Action, ◌>>=◌, ◌>>◌, done, fail, lift, modify}
use ferredge.Mqtt.Session.{
  Runtime, MqttClientSession, Watch, unwatched, handle_connection_events, checked_send, on_socket,
}

module _ (core : MqttCore) (lossy : List ℕ → String) (from_utf8 : List ℕ → Option String)
    {S : Type 0} (runtime : Runtime S) where
  abbrev pingreq : MqttProtocolVersion → Packet
  pingreq MqttProtocolVersion.v5_0 = Packet.v5_pingreq
  pingreq MqttProtocolVersion.v3_1_1 = Packet.v3_pingreq

  abbrev disconnect : MqttProtocolVersion → Packet
  disconnect MqttProtocolVersion.v5_0 =
      Packet.v5_disconnect
        (record { reason_code = some DisconnectReasonCode.normal_disconnection; props = some [] })
  disconnect MqttProtocolVersion.v3_1_1 = Packet.v3_disconnect

  -- The packet, built, as a step.
  abbrev built : Packet → Action (MqttClientSession core S) Packet
  built packet = lift (checked (core.build packet) packet)

  abbrev hand_over : Packet → Action (MqttClientSession core S) (List RoutedMessage)
  hand_over packet =
      checked_send core lossy from_utf8 runtime packet
      >>= handle_connection_events core lossy from_utf8 runtime unwatched

  -- `last_activity.elapsed() < Duration::from_secs(keepalive_secs)`, in nanoseconds.
  abbrev pub is_recent : MqttClientSession core S → ℕ → Bool
  is_recent session keepalive_secs =
      ltb (runtime.now session.socket - session.last_activity) (keepalive_secs * 1_000_000_000)

  abbrev pub ping : Action (MqttClientSession core S) (Unit {0})
  ping session =
      (do
        packet ← built (pingreq session.protocol_version)
        events ← checked_send core lossy from_utf8 runtime packet
        modify (λ s. record s { awaiting_pingresp = true })
        handle_connection_events core lossy from_utf8 runtime unwatched events
        done tt)
        session

  abbrev pub ping_if_due : Option ℕ → Action (MqttClientSession core S) (Unit {0})
  ping_if_due none session = some (ok tt, session)
  ping_if_due (some keepalive_secs) session =
      if keepalive_secs == 0
      then some (ok tt, session)
      else if is_recent session keepalive_secs
      then some (ok tt, session)
      else if session.awaiting_pingresp
      then some (err "mqtt keepalive timed out waiting for ping response", session)
      else ping session

  unfoldable pub send_keepalive_ping_if_due : Action (MqttClientSession core S) (Unit {0})
  unfolding handle_connection_events
  send_keepalive_ping_if_due session = ping_if_due session.keepalive_secs session

  abbrev pub receive : Watch → List ℕ → Action (MqttClientSession core S) (List RoutedMessage)
  receive watch bytes session =
      let (events, connection) = core.recv session.connection bytes in
      handle_connection_events core lossy from_utf8 runtime watch events (record session {
        connection = connection;
        last_activity = runtime.now session.socket;
        awaiting_pingresp = false;
      })

  -- What is done with the answer of `read`.
  abbrev pub after_read :
      Watch
      → Result (List ℕ) runtime.stream.Error
      → Action (MqttClientSession core S) (List RoutedMessage)
  after_read watch (ok []) = fail "mqtt stream closed"
  after_read watch (ok (byte ∷ bytes)) = receive watch (byte ∷ bytes)
  after_read watch (err error) =
      if runtime.is_timed_out error
      then send_keepalive_ping_if_due >> done []
      else fail (str_append "failed reading MQTT stream: " (runtime.stream.debug error))

  abbrev pub read_answer : Action (MqttClientSession core S) (Result (List ℕ) runtime.stream.Error)
  read_answer session =
      let (answer, socket) = runtime.stream.read session.socket in
      some (ok answer, record session { socket = socket })

  -- `read_from_session_async`.
  unfoldable pub read_from_session :
      Watch → Option ℕ → Action (MqttClientSession core S) (List RoutedMessage)
  unfolding send_keepalive_ping_if_due handle_connection_events
  read_from_session watch timeout = do
    on_socket core lossy from_utf8 runtime "failed to set MQTT read timeout: "
        (λ socket. some (runtime.set_read_timeout socket timeout))
    answer ← read_answer
    after_read watch answer

  -- `disconnect_session`.
  unfoldable pub disconnect_session : Action (MqttClientSession core S) (Unit {0})
  unfolding handle_connection_events
  disconnect_session session =
      (do
        packet ← built (disconnect session.protocol_version)
        hand_over packet
        on_socket core lossy from_utf8 runtime "failed to close MQTT socket: "
            (λ socket. some (runtime.close socket)))
        session
