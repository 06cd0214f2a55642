-- ===== src/Mqtt/DriverState.antt =====
-- crates/ferredge-proto-mqtt/src/lib.rs: the state of `MqttDriver`, its commands and its status.
use ferredge.Prelude.{ℕ, Bool, String, Option, List, Result}
use ferredge.Core.Command.{RoutedEvent}
use ferredge.Mqtt.Package.{MqttCore}
use ferredge.Mqtt.Types.{MqttDevice, MqttProtocolVersion, MqttConnackProperties, MqttPacketRequest}
use ferredge.Mqtt.Auth.{MqttAuthProvider}
use ferredge.Mqtt.Session.{MqttClientSession}
use ferredge.Mqtt.Recovery.{Recovery}

pub data MqttListenerStatus : Type 0 where
  stopped running : MqttListenerStatus
  failed : String → MqttListenerStatus

pub data SessionCommandKind : Type 0 where
  publish subscribe unsubscribe : MqttPacketRequest → SessionCommandKind

pub data SessionCommandResult : Type 0 where
  done : SessionCommandResult
  events : List RoutedEvent → SessionCommandResult

-- `listener_command_sender` tells whether the sender of the listener's channel is there.
pub record MqttDriver (core : MqttCore) (S : Type 0) : Type 0 where
  pub dvc : MqttDevice
  pub session : Option (MqttClientSession core S)
  pub negotiated_connack : Option MqttConnackProperties
  pub listener_command_sender : Bool
  pub listener_running : Bool
  pub listener_error : Option String
  pub recovery : Recovery
  pub auth_handler : Option MqttAuthProvider

-- What a response channel has when it is asked.
pub data Received : Type 0 where
  response : Result SessionCommandResult String → Received
  empty closed other : Received

-- What the driver has besides its state: the network, a fresh connection of the package that answers
-- publishes itself, the channels of a running listener, and what other tasks do while it sleeps.
-- `send_command` waits for room, without an answer if there never is any, and is false if the
-- listener's end is gone; `try_recv` and `elapsed_ms` take the number of polls before.
pub record Surroundings (core : MqttCore) (S Error : Type 0) : Type 0 where
  pub connect : String → Result S Error
  pub set_write_timeout : S → Option ℕ → Result (Unit {0}) Error × S
  pub new_connection : MqttProtocolVersion → core.Connection
  pub send_command : SessionCommandKind → MqttDriver core S → Option (Bool × MqttDriver core S)
  pub try_recv : SessionCommandKind → ℕ → MqttDriver core S → Received
  pub elapsed_ms : ℕ → ℕ
  pub meanwhile : MqttDriver core S → MqttDriver core S
