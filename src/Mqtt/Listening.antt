-- ===== src/Mqtt/Listening.antt =====
-- crates/ferredge-proto-mqtt/src/lib.rs: a command that reaches the listener's session.
use ferredge.Prelude.{ℕ, false, String, Option, some, List}
use ferredge.Core.Command.{RoutedMessage}
use ferredge.Mqtt.Package.{MqttCore}
use ferredge.Mqtt.Types.{MqttPacketRequest}
use ferredge.Mqtt.Action.{Action, ◌>>=◌}
use ferredge.Mqtt.Action as Action
use ferredge.Mqtt.Auth.{MqttAuthProvider}
use ferredge.Mqtt.Session.{Runtime, MqttClientSession}
use ferredge.Mqtt.DriverState.{Surroundings, SessionCommandKind, SessionCommandResult}
use ferredge.Mqtt.Driver.{exchange, events_of}

abbrev request_of : SessionCommandKind → MqttPacketRequest
request_of (SessionCommandKind.publish request) = request
request_of (SessionCommandKind.subscribe request) = request
request_of (SessionCommandKind.unsubscribe request) = request

abbrev result_of : SessionCommandKind → List RoutedMessage → SessionCommandResult
result_of (SessionCommandKind.subscribe _) messages =
    SessionCommandResult.events (events_of messages)
result_of _ messages = SessionCommandResult.done

module _ (core : MqttCore) (lossy : List ℕ → String) (from_utf8 : List ℕ → Option String)
    {S : Type 0} (runtime : Runtime S)
    (surroundings : Surroundings core S runtime.stream.Error) where
  -- The response for the channel; the function itself answers without its value.
  unfoldable pub process_session_command :
      Option MqttAuthProvider
      → SessionCommandKind
      → Action (MqttClientSession core S) SessionCommandResult
  unfolding exchange
  process_session_command auth_handler kind =
      exchange core lossy from_utf8 runtime surroundings (request_of kind)
        (record { negotiated = false; auth_handler = some auth_handler })
      >>= λ messages. Action.done (result_of kind messages)
