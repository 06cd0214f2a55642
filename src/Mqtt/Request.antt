-- ===== src/Mqtt/Request.antt =====
-- crates/ferredge-proto-mqtt/src/lib.rs: `MqttDriver::native_packet_request` and
-- `bridge_packet_request`, over the encoders of convert.rs.
pub mod Equivalence
use ferredge.Prelude.{ℕ, String, List, Result, ◌>>=◌}
use ferredge.Core.Payload.{PayloadValue}
use ferredge.Core.Command.{Command}
use ferredge.Bridge.Message.{BridgeMessage}
use ferredge.Mqtt.Package.{MqttCore}
use ferredge.Mqtt.Types.{
  MqttDevice, MqttNativePlan, MqttPacketRequest, MqttCommandConversionError,
  preferred_protocol_version,
}
use ferredge.Mqtt.Plan.{plan_native, planner_message_for_command}
use ferredge.Mqtt.View.{packet_semantics_from_native_plan, packet_semantics_from_bridge}
use ferredge.Mqtt.Build.{build_packet_request}

module _ (core : MqttCore) (json : PayloadValue → Result (List ℕ) String)
    (device : MqttDevice) where
  unfoldable pub encode_native :
      MqttNativePlan → Result MqttPacketRequest MqttCommandConversionError
  unfolding preferred_protocol_version packet_semantics_from_native_plan build_packet_request
  encode_native plan = do
    let version = preferred_protocol_version device.endpoint
    semantics ← packet_semantics_from_native_plan json plan
    build_packet_request core semantics version

  unfoldable pub encode_bridge : BridgeMessage → Result MqttPacketRequest MqttCommandConversionError
  unfolding preferred_protocol_version packet_semantics_from_bridge build_packet_request
  encode_bridge message = do
    let version = preferred_protocol_version device.endpoint
    semantics ← packet_semantics_from_bridge json message
    build_packet_request core semantics version

  unfoldable pub native_packet_request :
      Command → Result MqttPacketRequest MqttCommandConversionError
  unfolding plan_native encode_native
  native_packet_request command = plan_native command >>= encode_native

  unfoldable pub bridge_packet_request :
      Command → Result MqttPacketRequest MqttCommandConversionError
  unfolding planner_message_for_command encode_bridge
  bridge_packet_request command = planner_message_for_command command >>= encode_bridge
