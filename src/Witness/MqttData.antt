-- ===== src/Witness/MqttData.antt =====
-- A broker reached by MQTT 5.0, the commands for it, and a package that accepts every packet.
use ferredge.Prelude.{
  ◌*◌, ℕ, true, false, String, none, some, List, [], ◌∷◌, Result, ok, err, ◌+◌, length,
}
use ferredge.Core.Payload.{PayloadValue}
use ferredge.Core.Backoff.{BackoffStrategy}
use ferredge.Core.Command.{Intent, Command, BrokerChannelKind, DeliveryGuarantee}
use ferredge.Core.Device.{DeviceStatus}
use ferredge.Mqtt.Package.{MqttCore, Qos, RetainHandling, Event, V5Publish, V5Ack, Property}
use ferredge.Mqtt.Types.{
  MqttMeta, MqttPayloadFormat, MqttDevice, MqttProtocolVersion, MqttPacketRequest, MqttWirePacket,
}
use ferredge.Mqtt.Meta.{default}
use ferredge.Mqtt.Meta.Into.{into_transport_meta}
use ferredge.Mqtt.Inbound.{MqttInboundDecoder, new_decoder}
use ferredge.Mqtt.View.{PublishView}
use ferredge.Mqtt.Session.{Runtime, MqttClientSession}
use ferredge.Mqtt.Recovery.{Recovery}
use ferredge.Mqtt.DriverState.{Received, MqttDriver, Surroundings}

-- Identifiers are given in turn; nothing is sent or received.
abbrev pub accepting : MqttCore
accepting = record {
  check_topic_name = λ _ _. ok tt;
  check_property = λ _. ok tt;
  check_sub_entry = λ _. ok tt;
  check_topic_filters = λ _ _. ok tt;
  check_client_id = λ _ _. ok tt;
  check_will_message = λ _. ok tt;
  check_user_name = λ _ _. ok tt;
  check_password = λ _ _. ok tt;
  build = λ _. ok tt;
  new_sub_opts = record {
    qos = Qos.at_most_once;
    nl = false;
    rap = false;
    rh = RetainHandling.send_retained;
  };
  payload_format_val = λ _. 1;
  qos_as_u8 = λ _. 1;
  auth_is_success = λ _. true;
  auth_to_string = λ _. "Success";
  disconnect_to_string = λ _. "NormalDisconnection";
  to_continuous_buffer = λ _. 192 ∷ 0 ∷ [];
  Connection = ℕ;
  acquire_packet_id = λ next. (ok next, next + 1);
  checked_send = λ next packet. (Event.request_send_packet packet ∷ [], next);
  recv = λ next bytes. ([], next);
}

abbrev pub no_json : PayloadValue → Result (List ℕ) String
no_json value = err "no encoder"

-- Every text that is looked at here is one letter.
abbrev pub letter : List ℕ → String
letter (byte ∷ []) = "a"
letter bytes = "b"

abbrev pub broker : MqttDevice
broker = record {
  id = "broker";
  name = "Broker";
  status = DeviceStatus.online;
  endpoint = record {
    broker = "broker.local";
    client_id = "panel";
    auth = none;
    keepalive_secs = some 30;
    clean_start = true;
    session_expiry_secs = none;
    topic_prefix = none;
    connect_properties = record {
      receive_maximum = none;
      maximum_packet_size = none;
      topic_alias_maximum = none;
      request_response_information = none;
      request_problem_information = none;
      session_expiry_interval_secs = none;
      authentication_method = none;
      authentication_data = none;
      user_properties = [];
    };
    will = none;
    reconnect = record {
      enabled = true;
      initial_delay_ms = 100;
      max_delay_ms = 1_000;
      strategy = BackoffStrategy.exponential;
      multiplier = 2;
      max_attempts = none;
      replay_subscriptions = true;
      queue_requests_while_disconnected = true;
      max_queued_requests = 8;
    };
    supported_versions = MqttProtocolVersion.v5_0 ∷ [];
  };
  metadata = none;
  max_connections = none;
  resources = [];
  message_endpoints = [];
}

abbrev pub retained_view : MqttMeta
retained_view = record default {
  qos = some 1;
  retain = true;
  payload_format = some MqttPayloadFormat.utf8;
  response_topic = some "answers";
  correlation_data = some (7 ∷ []);
  subscription_identifiers = 4 ∷ 900 ∷ [];
  headers = some (record { key = "trace"; value = "7" } ∷ []);
}

abbrev pub publish_command : Command
publish_command = record {
  id = "cmd-1";
  source_device_id = some "panel";
  target_device_id = "broker";
  intent =
      Intent.send (record { name = "lamps/1"; kind = some BrokerChannelKind.topic })
        (PayloadValue.bytes (49 ∷ []))
        (record {
          delivery = some DeliveryGuarantee.at_least_once;
          headers = record { key = "room"; value = "hall" } ∷ [];
          extensions = some (into_transport_meta retained_view);
        });
  correlation = none;
}

abbrev pub asking_packet : V5Publish
asking_packet = record {
  topic_name = "lamps/1";
  qos = Qos.at_least_once;
  retain = false;
  dup = false;
  packet_id = some 1;
  payload = 49 ∷ [];
  props = Property.response_topic "answers" ∷ Property.correlation_data (7 ∷ []) ∷ [];
}

abbrev pub asking_request : MqttPacketRequest
asking_request = record { command_id = "cmd-1"; packet = MqttWirePacket.v5_publish asking_packet }

abbrev pub fresh_decoder : MqttInboundDecoder
fresh_decoder = new_decoder "broker"

abbrev pub ack : V5Ack
ack = record { packet_id = 1; reason_code = none; props = none }

abbrev pub asking_publish : PublishView
asking_publish = record {
  command_id = "cmd-1";
  topic = "lamps/1";
  payload = 49 ∷ [];
  delivery = some DeliveryGuarantee.at_least_once;
  retain = false;
  payload_format = none;
  content_type = none;
  message_expiry_interval_secs = none;
  topic_alias = none;
  reply_to = none;
  response_topic = some "answers";
  correlation_id = none;
  correlation_data = some (7 ∷ []);
  projected_user_properties = [];
}

-- A socket whose state is its clock: it takes every byte and delivers a PINGRESP.
abbrev pub wire : Runtime ℕ
wire = record {
  stream = record {
    Error = String;
    closed = "Closed";
    is_closed = λ _. false;
    debug = λ e. e;
    read = λ s. (ok (208 ∷ 0 ∷ []), s);
    write = λ s bytes. (ok (length bytes), s);
    flush = λ s. (ok tt, s);
  };
  is_timed_out = λ _. false;
  set_read_timeout = λ s timeout. (ok tt, s);
  close = λ s. (ok tt, s);
  now = λ s. s;
}

-- The listener takes every command and never responds.
abbrev pub deaf_listener : Surroundings accepting ℕ String
deaf_listener = record {
  connect = λ _. ok 0;
  set_write_timeout = λ s timeout. (ok tt, s);
  new_connection = λ _. 1;
  send_command = λ kind driver. some (true, driver);
  try_recv = λ kind poll driver. Received.empty;
  elapsed_ms = λ poll. 10 * poll;
  meanwhile = λ driver. driver;
}

abbrev pub live_session : MqttClientSession accepting ℕ
live_session = record {
  socket = 0;
  connection = 1;
  protocol_version = MqttProtocolVersion.v5_0;
  keepalive_secs = some 30;
  last_activity = 0;
  awaiting_pingresp = false;
  inbound_decoder = fresh_decoder;
  authentication_method = none;
  negotiated_connack = none;
}

abbrev pub nothing_kept : Recovery
nothing_kept = record { desired_subscriptions = []; recovery_queue = [] }

abbrev pub quiet_driver : MqttDriver accepting ℕ
quiet_driver = record {
  dvc = broker;
  session = some live_session;
  negotiated_connack = none;
  listener_command_sender = true;
  listener_running = false;
  listener_error = none;
  recovery = nothing_kept;
  auth_handler = none;
}

abbrev pub listening_driver : MqttDriver accepting ℕ
listening_driver = record quiet_driver { listener_running = true }

abbrev pub unsubscribe_request : MqttPacketRequest
unsubscribe_request = record {
  command_id = "cmd-2";
  packet = MqttWirePacket.v3_unsubscribe (record { packet_id = 1; entries = "lamps/+" ∷ [] });
}

abbrev pub subscribe_request : MqttPacketRequest
subscribe_request = record {
  command_id = "cmd-3";
  packet = MqttWirePacket.v3_subscribe (record {
    packet_id = 1;
    entries = record { topic_filter = "lamps/+"; sub_opts = accepting.new_sub_opts } ∷ [];
  });
}
