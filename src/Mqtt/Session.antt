-- ===== src/Mqtt/Session.antt =====
-- crates/ferredge-proto-mqtt/src/runtime.rs: the live session, its reading and its writing.
pub mod Ends
use ferredge.Prelude.{
  ℕ, Bool, true, false, String, str_append, Option, none, some, List, [], ◌∷◌, ◌++◌, Result, ok,
  err, map_err,
}
use ferredge.Core.Net.{Stream, write_all}
use ferredge.Core.Command.{RoutedMessage}
use ferredge.Mqtt.Package.{MqttCore, Event, Packet}
use ferredge.Mqtt.Types.{MqttProtocolVersion, MqttConnackProperties, MqttPacketRequest}
use ferredge.Mqtt.Action.{Action, ◌>>=◌, ◌>>◌, done, fail, lift, modify}
use ferredge.Mqtt.Inbound.{MqttInboundDecoder, MqttDecodedInbound}
use ferredge.Mqtt.Decode.{decode, record_outbound_request}
use ferredge.Mqtt.Connect.{update_negotiated_connack}
use ferredge.Mqtt.Auth.{
  MqttAuthProvider, MqttAuthChallenge, MqttAuthResponse, auth_challenge_from_auth,
  build_auth_packet,
}
use ferredge.Mqtt.PacketId.{assign_runtime_packet_id, packet_request_into_packet}

-- The socket with the world, the clock and the texts that the session uses.
pub record Runtime (S : Type 0) : Type 1 where
  pub stream : Stream S
  pub is_timed_out : stream.Error → Bool
  pub set_read_timeout : S → Option ℕ → Result (Unit {0}) stream.Error × S
  pub close : S → Result (Unit {0}) stream.Error × S
  -- Nanoseconds.
  pub now : S → ℕ

-- `MqttClientSession`, with the state of its socket, and the CONNACK state shared with the driver.
pub record MqttClientSession (core : MqttCore) (S : Type 0) : Type 0 where
  pub socket : S
  pub connection : core.Connection
  pub protocol_version : MqttProtocolVersion
  pub keepalive_secs : Option ℕ
  pub last_activity : ℕ
  pub awaiting_pingresp : Bool
  pub inbound_decoder : MqttInboundDecoder
  pub authentication_method : Option String
  pub negotiated_connack : Option MqttConnackProperties

abbrev pub routed_of : MqttDecodedInbound → List RoutedMessage
routed_of MqttDecodedInbound.ignored = []
routed_of (MqttDecodedInbound.event event) = RoutedMessage.event event ∷ []
routed_of (MqttDecodedInbound.result result) = RoutedMessage.result result ∷ []

-- What a caller lets the events touch: the CONNACK state, and the authentication handler's slot.
pub record Watch : Type 0 where
  pub negotiated : Bool
  pub auth_handler : Option (Option MqttAuthProvider)

abbrev pub unwatched : Watch
unwatched = record { negotiated = false; auth_handler = none }

module _ (core : MqttCore) (lossy : List ℕ → String) (from_utf8 : List ℕ → Option String)
    {S : Type 0} (runtime : Runtime S) where
  abbrev pub Session : Type 0
  Session = MqttClientSession core S

  -- A method of the socket, with its error told as `{text}{e:?}`.
  abbrev pub on_socket :
      {A : Type 0} → String → (S → Option (Result A runtime.stream.Error × S)) → Action Session A
  on_socket text method session = elim (method session.socket) [
    | none ↦ none
    | some (answer, socket) ↦ some (
      map_err (λ e. str_append text (runtime.stream.debug e)) answer,
      record session { socket = socket },
    )
  ]

  -- One `RequestSendPacket`.
  unfoldable pub send_packet : String → String → Packet → Action Session (Unit {0})
  unfolding write_all
  send_packet write_error flush_error packet = do
    on_socket write_error (write_all runtime.stream (core.to_continuous_buffer packet))
    on_socket flush_error (λ socket. some (runtime.stream.flush socket))
    modify (λ session. record session { last_activity = runtime.now session.socket })

  -- `process_outbound_auth_events_async`.
  unfoldable pub process_outbound_auth_events : List Event → Action Session (Unit {0})
  unfolding send_packet
  process_outbound_auth_events [] = done tt
  process_outbound_auth_events (Event.request_send_packet packet ∷ events) =
      send_packet "failed to write MQTT auth packet: " "failed to flush MQTT auth packet: " packet
      >> process_outbound_auth_events events
  process_outbound_auth_events (Event.notify_error error ∷ events) =
      fail (str_append "mqtt protocol error during auth exchange: " error)
  process_outbound_auth_events (Event.request_close ∷ events) =
      fail "mqtt auth exchange requested close"
  process_outbound_auth_events (_ ∷ events) = process_outbound_auth_events events

  abbrev pub checked_send : Packet → Action Session (List Event)
  checked_send packet session =
      let (events, connection) = core.checked_send session.connection packet in
      some (ok events, record session { connection = connection })

  abbrev respond : Option MqttAuthProvider → MqttAuthChallenge → Result MqttAuthResponse String
  respond none challenge =
      err "mqtt broker requested enhanced authentication but no auth handler is configured"
  respond (some handler) challenge = elim (handler challenge) [
    | err e ↦ err e
    | ok none ↦ err "mqtt auth handler returned no response for broker challenge"
    | ok (some response) ↦ ok response
  ]

  abbrev build_auth : MqttAuthResponse → Action Session Packet
  build_auth response session =
      let (packet, method) = build_auth_packet core session.authentication_method response in
      some (packet, record session { authentication_method = method })

  -- `process_incoming_auth_async`: only an AUTH packet is a challenge.
  unfoldable pub process_incoming_auth :
      Option MqttAuthProvider → Packet → Action Session (Unit {0})
  unfolding process_outbound_auth_events auth_challenge_from_auth build_auth_packet
  process_incoming_auth handler (Packet.v5_auth packet) session =
      let challenge = auth_challenge_from_auth session.authentication_method packet in
      (do
        response ← lift (respond handler challenge)
        reply ← build_auth response
        events ← checked_send reply
        process_outbound_auth_events events)
        (record session { authentication_method = challenge.authentication_method })
  process_incoming_auth handler _ session = some (ok tt, session)

  abbrev pub watch_connack : Bool → Packet → Action Session (Unit {0})
  watch_connack false packet = done tt
  watch_connack true packet = modify (λ session. record session {
    negotiated_connack = update_negotiated_connack session.negotiated_connack packet;
  })

  abbrev pub watch_auth : Option (Option MqttAuthProvider) → Packet → Action Session (Unit {0})
  watch_auth none packet = done tt
  watch_auth (some handler) packet = process_incoming_auth handler packet

  abbrev decode_packet : Packet → Action Session (List RoutedMessage)
  decode_packet packet session =
      let (decoded, decoder) = decode core lossy from_utf8 session.inbound_decoder packet in
      some (ok (routed_of decoded), record session { inbound_decoder = decoder })

  -- `handle_connection_events_async`; `routed` is what was collected so far.
  unfoldable pub handle_events :
      Watch → List RoutedMessage → List Event → Action Session (List RoutedMessage)
  unfolding send_packet process_incoming_auth update_negotiated_connack decode
  handle_events watch routed [] = done routed
  handle_events watch routed (Event.request_send_packet packet ∷ events) =
      send_packet "failed to write MQTT packet: " "failed to flush MQTT packet: " packet
      >> handle_events watch routed events
  handle_events watch routed (Event.notify_packet_received packet ∷ events) = do
    watch_connack watch.negotiated packet
    watch_auth watch.auth_handler packet
    messages ← decode_packet packet
    handle_events watch (routed ++ messages) events
  handle_events watch routed (Event.notify_error error ∷ events) =
      fail (str_append "mqtt protocol error: " error)
  handle_events watch routed (Event.request_close ∷ events) = fail "mqtt connection requested close"
  handle_events watch routed (_ ∷ events) = handle_events watch routed events

  unfoldable pub handle_connection_events : Watch → List Event → Action Session (List RoutedMessage)
  unfolding handle_events
  handle_connection_events watch events = handle_events watch [] events

  abbrev assign : MqttPacketRequest → Action Session MqttPacketRequest
  assign request session =
      let (answer, connection) = assign_runtime_packet_id core session.connection request in
      some (answer, record session { connection = connection })

  abbrev record_request : MqttPacketRequest → Action Session (Unit {0})
  record_request request = modify (λ session. record session {
    inbound_decoder = record_outbound_request lossy session.inbound_decoder request;
  })

  -- `send_packet_request_async`.
  unfoldable pub send_packet_request : MqttPacketRequest → Action Session (Unit {0})
  unfolding assign_runtime_packet_id record_outbound_request packet_request_into_packet
      handle_connection_events
  send_packet_request request = do
    assigned ← assign request
    record_request assigned
    events ← checked_send (packet_request_into_packet assigned)
    handle_connection_events unwatched events
    done tt
