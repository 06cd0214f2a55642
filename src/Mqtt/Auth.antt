-- ===== src/Mqtt/Auth.antt =====
-- crates/ferredge-proto-mqtt/src/runtime.rs and types.rs: the enhanced authentication of MQTT 5.0.
use ferredge.Prelude.{
  ℕ, String, Option, none, some, List, [], ◌∷◌, ◌++◌, ◌or◌, unwrap_or, Result, ok, err,
}
use ferredge.Mqtt.Package.{MqttCore, Property, AuthReasonCode, V5Auth, Packet, checked}
use ferredge.Mqtt.Build.{pushed, user_properties, push_all}

pub data MqttAuthStage : Type 0 where
  connect reauthenticate : MqttAuthStage

pub data MqttAuthFlowReason : Type 0 where
  success continue_authentication re_authenticate : MqttAuthFlowReason

pub record MqttAuthChallenge : Type 0 where
  pub stage : MqttAuthStage
  pub reason : MqttAuthFlowReason
  pub authentication_method : Option String
  pub authentication_data : Option (List ℕ)
  pub reason_string : Option String
  pub user_properties : List (String × String)

pub record MqttAuthResponse : Type 0 where
  pub reason : MqttAuthFlowReason
  pub authentication_method : Option String
  pub authentication_data : Option (List ℕ)
  pub reason_string : Option String
  pub user_properties : List (String × String)

-- `MqttAuthProvider::respond`.
abbrev pub MqttAuthProvider : Type 0
MqttAuthProvider = MqttAuthChallenge → Result (Option MqttAuthResponse) String

unfoldable pub auth_flow_reason_from_v5 : AuthReasonCode → MqttAuthFlowReason
auth_flow_reason_from_v5 AuthReasonCode.success = MqttAuthFlowReason.success
auth_flow_reason_from_v5 AuthReasonCode.continue_authentication =
    MqttAuthFlowReason.continue_authentication
auth_flow_reason_from_v5 AuthReasonCode.re_authenticate = MqttAuthFlowReason.re_authenticate

abbrev pub stage_of : Option AuthReasonCode → MqttAuthStage
stage_of (some AuthReasonCode.re_authenticate) = MqttAuthStage.reauthenticate
stage_of _ = MqttAuthStage.connect

unfoldable pub read_auth_prop : MqttAuthChallenge → Property → MqttAuthChallenge
read_auth_prop s (Property.authentication_method val) = record s {
  authentication_method = some val;
}
read_auth_prop s (Property.authentication_data val) = record s { authentication_data = some val }
read_auth_prop s (Property.reason_string val) = record s { reason_string = some val }
read_auth_prop s (Property.user_property key val) = record s {
  user_properties = s.user_properties ++ (key, val) ∷ [];
}
read_auth_prop s _ = s

unfoldable pub read_auth_props : MqttAuthChallenge → List Property → MqttAuthChallenge
unfolding read_auth_prop
read_auth_props s [] = s
read_auth_props s (prop ∷ props) = read_auth_props (read_auth_prop s prop) props

-- The challenge; its method is also the session's from then on.
unfoldable pub auth_challenge_from_auth : Option String → V5Auth → MqttAuthChallenge
unfolding read_auth_props auth_flow_reason_from_v5
auth_challenge_from_auth authentication_method packet =
    read_auth_props
      (record {
        stage = stage_of packet.reason_code;
        reason = auth_flow_reason_from_v5 (unwrap_or packet.reason_code AuthReasonCode.success);
        authentication_method = authentication_method;
        authentication_data = none;
        reason_string = none;
        user_properties = [];
      })
      (unwrap_or packet.props [])

abbrev reason_code_of : MqttAuthFlowReason → AuthReasonCode
reason_code_of MqttAuthFlowReason.success = AuthReasonCode.success
reason_code_of MqttAuthFlowReason.continue_authentication = AuthReasonCode.continue_authentication
reason_code_of MqttAuthFlowReason.re_authenticate = AuthReasonCode.re_authenticate

-- The method that the response names, else the session's.
unfoldable pub auth_method : Option String → MqttAuthResponse → Option String
auth_method session_method response = response.authentication_method or session_method

unfoldable pub auth_props : Option String → MqttAuthResponse → List Property
unfolding auth_method
auth_props session_method response =
    pushed Property.authentication_method (auth_method session_method response)
    ++ (pushed Property.authentication_data response.authentication_data
        ++ (pushed Property.reason_string response.reason_string
            ++ user_properties response.user_properties))

-- The packet, and the session's method after it, which is kept before the packet is built.
unfoldable pub build_auth_packet :
    MqttCore → Option String → MqttAuthResponse → Result Packet String × Option String
unfolding auth_props auth_method push_all
build_auth_packet core session_method response =
    elim (push_all core (auth_props session_method response)) [
      | err e ↦ (err e, session_method)
      | ok props ↦ (
        checked
            (core.build (
              Packet.v5_auth (record {
                reason_code = some (reason_code_of response.reason);
                props = some props;
              })))
            (Packet.v5_auth
              (record { reason_code = some (reason_code_of response.reason); props = some props })),
        auth_method session_method response,
      )
    ]
