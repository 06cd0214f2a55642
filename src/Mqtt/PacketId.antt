-- ===== src/Mqtt/PacketId.antt =====
-- crates/ferredge-proto-mqtt/src/runtime.rs: packet identifiers given when a request is sent.
use ferredge.Prelude.{ℕ, Bool, true, false, not, String, some, Result, ok, err, ◌>>◌, map_ok}
use ferredge.Mqtt.Package.{
  MqttCore, Qos, Version, V5Publish, V3Publish, V5Subscribe, V3Subscribe, V5Unsubscribe,
  V3Unsubscribe, Packet, checked,
}
use ferredge.Mqtt.Types.{MqttWirePacket, MqttPacketRequest}

unfoldable pub packet_of_wire : MqttWirePacket → Packet
packet_of_wire (MqttWirePacket.v5_publish packet) = Packet.v5_publish packet
packet_of_wire (MqttWirePacket.v3_publish packet) = Packet.v3_publish packet
packet_of_wire (MqttWirePacket.v5_subscribe packet) = Packet.v5_subscribe packet
packet_of_wire (MqttWirePacket.v3_subscribe packet) = Packet.v3_subscribe packet
packet_of_wire (MqttWirePacket.v5_unsubscribe packet) = Packet.v5_unsubscribe packet
packet_of_wire (MqttWirePacket.v3_unsubscribe packet) = Packet.v3_unsubscribe packet

unfoldable pub packet_request_into_packet : MqttPacketRequest → Packet
unfolding packet_of_wire
packet_request_into_packet request = packet_of_wire request.packet

abbrev is_at_most_once : Qos → Bool
is_at_most_once Qos.at_most_once = true
is_at_most_once _ = false

unfoldable pub publish_requires_packet_id : MqttWirePacket → Bool
publish_requires_packet_id (MqttWirePacket.v5_publish packet) = not (is_at_most_once packet.qos)
publish_requires_packet_id (MqttWirePacket.v3_publish packet) = not (is_at_most_once packet.qos)
publish_requires_packet_id _ = false

module _ (core : MqttCore) where
  abbrev rebuilt : Packet → MqttWirePacket → Result MqttWirePacket String
  rebuilt packet wire = checked (core.build packet) wire

  unfoldable pub rebuild_packet : MqttWirePacket → ℕ → Result MqttWirePacket String
  rebuild_packet (MqttWirePacket.v5_publish packet) packet_id = do
    core.check_topic_name Version.v5_0 packet.topic_name
    let packet' : V5Publish = record packet { packet_id = some packet_id }
    rebuilt (Packet.v5_publish packet') (MqttWirePacket.v5_publish packet')
  rebuild_packet (MqttWirePacket.v3_publish packet) packet_id = do
    core.check_topic_name Version.v3_1_1 packet.topic_name
    let packet' : V3Publish = record packet { packet_id = some packet_id }
    rebuilt (Packet.v3_publish packet') (MqttWirePacket.v3_publish packet')
  rebuild_packet (MqttWirePacket.v5_subscribe packet) packet_id =
      let packet' : V5Subscribe = record packet { packet_id = packet_id } in
      rebuilt (Packet.v5_subscribe packet') (MqttWirePacket.v5_subscribe packet')
  rebuild_packet (MqttWirePacket.v3_subscribe packet) packet_id =
      let packet' : V3Subscribe = record packet { packet_id = packet_id } in
      rebuilt (Packet.v3_subscribe packet') (MqttWirePacket.v3_subscribe packet')
  rebuild_packet (MqttWirePacket.v5_unsubscribe packet) packet_id = do
    core.check_topic_filters Version.v5_0 packet.entries
    let packet' : V5Unsubscribe = record packet { packet_id = packet_id }
    rebuilt (Packet.v5_unsubscribe packet') (MqttWirePacket.v5_unsubscribe packet')
  rebuild_packet (MqttWirePacket.v3_unsubscribe packet) packet_id = do
    core.check_topic_filters Version.v3_1_1 packet.entries
    let packet' : V3Unsubscribe = record packet { packet_id = packet_id }
    rebuilt (Packet.v3_unsubscribe packet') (MqttWirePacket.v3_unsubscribe packet')

  unfoldable pub rebuild_with_packet_id : MqttPacketRequest → ℕ → Result MqttPacketRequest String
  unfolding rebuild_packet
  rebuild_with_packet_id request packet_id =
      map_ok (λ packet. record { command_id = request.command_id; packet = packet })
        (rebuild_packet request.packet packet_id)

  -- The `match` that decides whether an identifier is acquired.
  unfoldable pub needs_packet_id : MqttWirePacket → Bool
  unfolding publish_requires_packet_id
  needs_packet_id (MqttWirePacket.v5_publish packet) =
      publish_requires_packet_id (MqttWirePacket.v5_publish packet)
  needs_packet_id (MqttWirePacket.v3_publish packet) =
      publish_requires_packet_id (MqttWirePacket.v3_publish packet)
  needs_packet_id _ = true

  abbrev with_acquired :
      MqttPacketRequest
      → Result ℕ String × core.Connection
      → Result MqttPacketRequest String × core.Connection
  with_acquired request (err e, connection) = (err e, connection)
  with_acquired request (ok packet_id, connection) =
      (rebuild_with_packet_id request packet_id, connection)

  unfoldable pub assign_runtime_packet_id :
      core.Connection → MqttPacketRequest → Result MqttPacketRequest String × core.Connection
  unfolding needs_packet_id rebuild_with_packet_id
  assign_runtime_packet_id connection request = elim (needs_packet_id request.packet) [
    | true ↦ with_acquired request (core.acquire_packet_id connection)
    | false ↦ (ok request, connection)
  ]
