-- ===== src/Mqtt/Connect.antt =====
-- crates/ferredge-proto-mqtt/src/runtime.rs: the CONNECT packet and what CONNACK negotiates.
use ferredge.Prelude.{
  ℕ, Bool, true, false, not, String, as_bytes, Option, none, some, List, [], ◌∷◌, ◌++◌, map_option,
  ◌or◌, unwrap_or, and_then, Result, ok, ◌>>=◌, ◌>>◌, ◌==◌,
}
use ferredge.Mqtt.Package.{
  MqttCore, Version, Property, WillMessage, V5Connect, V3Connect, V5Connack, Packet, checked,
}
use ferredge.Mqtt.Types.{
  MqttProtocolVersion, MqttAuthConfig, MqttWillConfig, MqttConnackProperties, MqttEndpointConfig,
  preferred_protocol_version,
}
use ferredge.Mqtt.Build.{qos_from_delivery, payload_format_of, pushed, user_properties, push_all}

-- `bool as u8`.
abbrev pub bool_as_u8 : Bool → ℕ
bool_as_u8 true = 1
bool_as_u8 false = 0

abbrev pub username_of : Option MqttAuthConfig → Option String
username_of auth = and_then auth (λ a. a.username)

abbrev pub password_of : Option MqttAuthConfig → Option (List ℕ)
password_of auth = map_option as_bytes (and_then auth (λ a. a.password))

-- A check of an optional part.
abbrev pub check_some {ℓ} :
    {A : Type ℓ} → (A → Result (Unit {0}) String) → Option A → Result (Unit {0}) String
check_some check none = ok tt
check_some check (some value) = check value

module _ (core : MqttCore) where
  unfoldable pub connect_props : MqttEndpointConfig → List Property
  connect_props config =
      let c = config.connect_properties in
      pushed Property.session_expiry_interval
        (c.session_expiry_interval_secs or config.session_expiry_secs)
      ++ (pushed Property.receive_maximum c.receive_maximum
          ++ (pushed Property.maximum_packet_size c.maximum_packet_size
              ++ (pushed Property.topic_alias_maximum c.topic_alias_maximum
                  ++ (pushed (λ b. Property.request_problem_information (bool_as_u8 b))
                        c.request_problem_information
                      ++ (pushed (λ b. Property.request_response_information (bool_as_u8 b))
                            c.request_response_information
                          ++ (pushed Property.authentication_method c.authentication_method
                              ++ (pushed Property.authentication_data c.authentication_data
                                  ++ user_properties c.user_properties)))))))

  unfoldable pub v5_will_props : MqttWillConfig → List Property
  v5_will_props will =
      pushed Property.will_delay_interval will.delay_interval_secs
      ++ (pushed
            (λ format.
              Property.payload_format_indicator
                (core.payload_format_val (payload_format_of format)))
            will.payload_format
          ++ (pushed Property.message_expiry_interval will.message_expiry_interval_secs
              ++ (pushed Property.content_type will.content_type
                  ++ (pushed Property.response_topic will.response_topic
                      ++ (pushed Property.correlation_data will.correlation_data
                          ++ user_properties will.user_properties)))))

  unfoldable pub build_v5_will_props : MqttWillConfig → Result (List Property) String
  unfolding push_all v5_will_props
  build_v5_will_props will = push_all core (v5_will_props will)

  abbrev pub will_message_of : MqttWillConfig → WillMessage
  will_message_of will = record {
    topic = will.topic;
    payload = will.payload;
    qos = qos_from_delivery will.delivery;
    retain = will.retain;
  }

  -- `if let Some(will) = &config.will`: the message is checked before its properties.
  abbrev will_props_of : Option MqttWillConfig → Result (List Property) String
  will_props_of none = ok []
  will_props_of (some will) = do
    core.check_will_message (will_message_of will)
    build_v5_will_props will

  unfoldable pub build_connect_packet_for :
      MqttEndpointConfig → MqttProtocolVersion → Result Packet String
  unfolding connect_props push_all build_v5_will_props qos_from_delivery
  build_connect_packet_for config MqttProtocolVersion.v5_0 = do
    props ← push_all core (connect_props config)
    core.check_client_id Version.v5_0 config.client_id
    will_props ← will_props_of config.will
    check_some (core.check_user_name Version.v5_0) (username_of config.auth)
    check_some (core.check_password Version.v5_0) (password_of config.auth)
    let packet : V5Connect = record {
      client_id = config.client_id;
      clean_start = config.clean_start;
      keep_alive = unwrap_or config.keepalive_secs 0;
      props = props;
      will_message = map_option will_message_of config.will;
      will_props = will_props;
      user_name = username_of config.auth;
      password = password_of config.auth;
    }
    checked (core.build (Packet.v5_connect packet)) (Packet.v5_connect packet)
  build_connect_packet_for config MqttProtocolVersion.v3_1_1 = do
    core.check_client_id Version.v3_1_1 config.client_id
    check_some (core.check_user_name Version.v3_1_1) (username_of config.auth)
    check_some (core.check_password Version.v3_1_1) (password_of config.auth)
    let packet : V3Connect = record {
      client_id = config.client_id;
      clean_start = config.clean_start;
      keep_alive = unwrap_or config.keepalive_secs 0;
      user_name = username_of config.auth;
      password = password_of config.auth;
    }
    checked (core.build (Packet.v3_connect packet)) (Packet.v3_connect packet)

  unfoldable pub build_connect_packet : MqttEndpointConfig → Result Packet String
  unfolding preferred_protocol_version build_connect_packet_for
  build_connect_packet config = build_connect_packet_for config (preferred_protocol_version config)

-- One round of the loop over the properties of a CONNACK: the last of a kind wins.
unfoldable pub read_connack_prop : MqttConnackProperties → Property → MqttConnackProperties
read_connack_prop s (Property.assigned_client_identifier val) = record s {
  assigned_client_identifier = some val;
}
read_connack_prop s (Property.response_information val) = record s {
  response_information = some val;
}
read_connack_prop s (Property.server_reference val) = record s { server_reference = some val }
read_connack_prop s (Property.receive_maximum val) = record s { receive_maximum = some val }
read_connack_prop s (Property.maximum_packet_size val) = record s { maximum_packet_size = some val }
read_connack_prop s (Property.topic_alias_maximum val) = record s { topic_alias_maximum = some val }
read_connack_prop s (Property.session_expiry_interval val) = record s {
  session_expiry_interval_secs = some val;
}
read_connack_prop s (Property.maximum_qos val) = record s { maximum_qos = some val }
read_connack_prop s (Property.retain_available val) = record s {
  retain_available = some (not (val == 0));
}
read_connack_prop s (Property.server_keep_alive val) = record s { server_keep_alive = some val }
read_connack_prop s (Property.wildcard_subscription_available val) = record s {
  wildcard_subscription_available = some (not (val == 0));
}
read_connack_prop s (Property.subscription_identifier_available val) = record s {
  subscription_identifier_available = some (not (val == 0));
}
read_connack_prop s (Property.shared_subscription_available val) = record s {
  shared_subscription_available = some (not (val == 0));
}
read_connack_prop s (Property.authentication_method val) = record s {
  authentication_method = some val;
}
read_connack_prop s (Property.authentication_data val) = record s { authentication_data = some val }
read_connack_prop s (Property.reason_string val) = record s { reason_string = some val }
read_connack_prop s (Property.user_property key val) = record s {
  user_properties = s.user_properties ++ (key, val) ∷ [];
}
read_connack_prop s _ = s

unfoldable pub read_connack_props : MqttConnackProperties → List Property → MqttConnackProperties
unfolding read_connack_prop
read_connack_props s [] = s
read_connack_props s (prop ∷ props) = read_connack_props (read_connack_prop s prop) props

abbrev pub empty_connack : Bool → String → MqttConnackProperties
empty_connack session_present reason_code = record {
  session_present = session_present;
  reason_code = some reason_code;
  reason_string = none;
  assigned_client_identifier = none;
  response_information = none;
  server_reference = none;
  receive_maximum = none;
  maximum_packet_size = none;
  topic_alias_maximum = none;
  session_expiry_interval_secs = none;
  maximum_qos = none;
  retain_available = none;
  server_keep_alive = none;
  wildcard_subscription_available = none;
  subscription_identifier_available = none;
  shared_subscription_available = none;
  authentication_method = none;
  authentication_data = none;
  user_properties = [];
}

unfoldable pub connack_snapshot_from_v5 : V5Connack → MqttConnackProperties
unfolding read_connack_props
connack_snapshot_from_v5 packet =
    read_connack_props (empty_connack packet.session_present packet.reason_code) packet.props

-- `update_negotiated_connack`: only a CONNACK changes what was negotiated.
unfoldable pub update_negotiated_connack :
    Option MqttConnackProperties → Packet → Option MqttConnackProperties
unfolding connack_snapshot_from_v5
update_negotiated_connack negotiated (Packet.v5_connack packet) =
    some (connack_snapshot_from_v5 packet)
update_negotiated_connack negotiated (Packet.v3_connack packet) =
    some (empty_connack packet.session_present packet.return_code)
update_negotiated_connack negotiated _ = negotiated
