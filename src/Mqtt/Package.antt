-- ===== src/Mqtt/Package.antt =====
-- The mqtt_protocol_core package, as what crates/ferredge-proto-mqtt/src/convert.rs and runtime.rs
-- call of it. A packet or property is the record of what its builder is given and its accessors
-- give back; which of them the package accepts is a parameter. Errors are their text.
use ferredge.Prelude.{ℕ, Bool, String, Option, List, Result, map_ok}

pub data Qos : Type 0 where
  at_most_once at_least_once exactly_once : Qos

pub data PayloadFormat : Type 0 where
  binary string : PayloadFormat

pub data RetainHandling : Type 0 where
  send_retained send_retained_if_not_exists do_not_send_retained : RetainHandling

pub data Version : Type 0 where
  v3_1_1 v5_0 : Version

-- Each property holds its `val()`.
pub data Property : Type 0 where
  payload_format_indicator message_expiry_interval topic_alias subscription_identifier :
      ℕ → Property
  session_expiry_interval receive_maximum maximum_packet_size topic_alias_maximum : ℕ → Property
  request_problem_information request_response_information will_delay_interval : ℕ → Property
  maximum_qos retain_available server_keep_alive wildcard_subscription_available : ℕ → Property
  subscription_identifier_available shared_subscription_available : ℕ → Property
  response_topic content_type authentication_method assigned_client_identifier : String → Property
  response_information server_reference reason_string : String → Property
  correlation_data authentication_data : List ℕ → Property
  user_property : String → String → Property

pub record V5Publish : Type 0 where
  pub topic_name : String
  pub qos : Qos
  pub retain : Bool
  pub dup : Bool
  pub packet_id : Option ℕ
  pub payload : List ℕ
  pub props : List Property

pub record V3Publish : Type 0 where
  pub topic_name : String
  pub qos : Qos
  pub retain : Bool
  pub dup : Bool
  pub packet_id : Option ℕ
  pub payload : List ℕ

-- `nl` is no-local, `rap` retain-as-published, `rh` the retain handling.
pub record SubOpts : Type 0 where
  pub qos : Qos
  pub nl : Bool
  pub rap : Bool
  pub rh : RetainHandling

pub record SubEntry : Type 0 where
  pub topic_filter : String
  pub sub_opts : SubOpts

pub record V5Subscribe : Type 0 where
  pub packet_id : ℕ
  pub entries : List SubEntry
  pub props : List Property

pub record V3Subscribe : Type 0 where
  pub packet_id : ℕ
  pub entries : List SubEntry

pub record V5Unsubscribe : Type 0 where
  pub packet_id : ℕ
  pub entries : List String
  pub props : List Property

pub record V3Unsubscribe : Type 0 where
  pub packet_id : ℕ
  pub entries : List String

-- A reason code as what is asked of it: `is_success`, `is_failure` and its text.
pub record ReasonCode : Type 0 where
  pub is_success : Bool
  pub is_failure : Bool
  pub text : String

-- PUBACK, PUBREC, PUBREL and PUBCOMP of MQTT 5.0.
pub record V5Ack : Type 0 where
  pub packet_id : ℕ
  pub reason_code : Option ReasonCode
  pub props : Option (List Property)

-- SUBACK and UNSUBACK of MQTT 5.0.
pub record V5Suback : Type 0 where
  pub packet_id : ℕ
  pub reason_codes : List ReasonCode
  pub props : List Property

pub data DisconnectReasonCode : Type 0 where
  normal_disconnection disconnect_with_will_message : DisconnectReasonCode
  other : String → DisconnectReasonCode

pub record V5Disconnect : Type 0 where
  pub reason_code : Option DisconnectReasonCode
  pub props : Option (List Property)

pub data AuthReasonCode : Type 0 where
  success continue_authentication re_authenticate : AuthReasonCode

pub record V5Auth : Type 0 where
  pub reason_code : Option AuthReasonCode
  pub props : Option (List Property)

pub record V5Connack : Type 0 where
  pub session_present : Bool
  pub reason_code : String
  pub props : List Property

pub record V3Connack : Type 0 where
  pub session_present : Bool
  pub return_code : String

-- `will_message`: topic, payload, quality of service and retain flag.
pub record WillMessage : Type 0 where
  pub topic : String
  pub payload : List ℕ
  pub qos : Qos
  pub retain : Bool

pub record V5Connect : Type 0 where
  pub client_id : String
  pub clean_start : Bool
  pub keep_alive : ℕ
  pub props : List Property
  pub will_message : Option WillMessage
  pub will_props : List Property
  pub user_name : Option String
  pub password : Option (List ℕ)

pub record V3Connect : Type 0 where
  pub client_id : String
  pub clean_start : Bool
  pub keep_alive : ℕ
  pub user_name : Option String
  pub password : Option (List ℕ)

-- The variants that the source names, and any other.
pub data Packet : Type 0 where
  v5_publish : V5Publish → Packet
  v3_publish : V3Publish → Packet
  v5_puback v5_pubrec v5_pubrel v5_pubcomp : V5Ack → Packet
  v3_puback v3_pubrec v3_pubrel v3_pubcomp v3_suback v3_unsuback : ℕ → Packet
  v5_suback v5_unsuback : V5Suback → Packet
  v5_subscribe : V5Subscribe → Packet
  v3_subscribe : V3Subscribe → Packet
  v5_unsubscribe : V5Unsubscribe → Packet
  v3_unsubscribe : V3Unsubscribe → Packet
  v5_disconnect : V5Disconnect → Packet
  v5_auth : V5Auth → Packet
  v5_connack : V5Connack → Packet
  v3_connack : V3Connack → Packet
  v5_connect : V5Connect → Packet
  v3_connect : V3Connect → Packet
  v3_disconnect v5_pingreq v3_pingreq other : Packet

pub data Event : Type 0 where
  request_send_packet : Packet → Event
  notify_packet_received : Packet → Event
  notify_error : String → Event
  request_close notify_packet_id_released request_timer_reset request_timer_cancel : Event

-- What the package decides: `check_*` is the answer of a constructor or of `build`.
pub record MqttCore : Type 1 where
  pub check_topic_name : Version → String → Result (Unit {0}) String
  pub check_property : Property → Result (Unit {0}) String
  pub check_sub_entry : SubEntry → Result (Unit {0}) String
  pub check_topic_filters : Version → List String → Result (Unit {0}) String
  pub check_client_id : Version → String → Result (Unit {0}) String
  pub check_will_message : WillMessage → Result (Unit {0}) String
  pub check_user_name : Version → String → Result (Unit {0}) String
  pub check_password : Version → List ℕ → Result (Unit {0}) String
  pub build : Packet → Result (Unit {0}) String
  pub new_sub_opts : SubOpts
  -- `PayloadFormatIndicator::val` and `Qos as u8`.
  pub payload_format_val : PayloadFormat → ℕ
  pub qos_as_u8 : Qos → ℕ
  pub auth_is_success : AuthReasonCode → Bool
  pub auth_to_string : AuthReasonCode → String
  pub disconnect_to_string : DisconnectReasonCode → String
  pub to_continuous_buffer : Packet → List ℕ
  -- The protocol state machine.
  pub Connection : Type 0
  pub acquire_packet_id : Connection → Result ℕ String × Connection
  pub checked_send : Connection → Packet → List Event × Connection
  pub recv : Connection → List ℕ → List Event × Connection

-- A value that the package accepted.
abbrev pub checked {ℓ} : {A : Type ℓ} → Result (Unit {0}) String → A → Result A String
checked answer value = map_ok (λ _. value) answer
