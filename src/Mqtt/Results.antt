-- ===== src/Mqtt/Results.antt =====
-- crates/ferredge-proto-mqtt/src/runtime.rs: acknowledgements as routed results.
use ferredge.Prelude.{
  ℕ, Bool, true, not, String, to_decimal, str_append, Option, none, some, List, [], ◌∷◌, map,
  map_option, unwrap_or, is_empty, then_some, ◌==◌, if◌then◌else◌, filter_option,
}
use ferredge.Prelude.Map.{get, remove}
use ferredge.Core.Meta.{TransportMeta}
use ferredge.Core.Command.{DeliveryState, RoutedResult}
use ferredge.Mqtt.Package.{Property, ReasonCode, V5Ack, V5Suback, DisconnectReasonCode}
use ferredge.Mqtt.Meta.{default}
use ferredge.Mqtt.Meta.Into.{into_transport_meta}
use ferredge.Mqtt.Inbound.{mqtt_source, reason_string_from_props, reason_string_from_props_opt}

unfoldable pub mqtt_result_meta : Option ℕ → List String → Option String → TransportMeta
unfolding into_transport_meta default
mqtt_result_meta packet_id reason_codes reason_string = into_transport_meta (record default {
  packet_id = packet_id;
  reason_codes = reason_codes;
  reason_string = reason_string;
})

abbrev pub Pending : Type 0
Pending = List (ℕ × String)

-- The command's id, else the packet's as text; a final answer forgets the packet's id.
unfoldable pub routed_result_from_packet_id_with_transport :
    Pending
    → String
    → ℕ
    → DeliveryState
    → Option String
    → Bool
    → Option TransportMeta
    → RoutedResult × Pending
unfolding get remove mqtt_source to_decimal
routed_result_from_packet_id_with_transport pending device_id packet_id state error final
      transport =
    (
      record {
        source = mqtt_source device_id;
        result = record {
          command_id = unwrap_or (get ◌==◌ pending packet_id) (to_decimal packet_id);
          device_id = device_id;
          state = state;
          payload = none;
          error = error;
          correlation = none;
        };
        transport = transport;
      },
      if final then remove ◌==◌ pending packet_id else pending,
    )

unfoldable pub routed_result_from_packet_id :
    Pending → String → ℕ → DeliveryState → Bool → RoutedResult × Pending
unfolding routed_result_from_packet_id_with_transport
routed_result_from_packet_id pending device_id packet_id state final =
    routed_result_from_packet_id_with_transport pending device_id packet_id state none final none

-- `reason_code.map_or(success, …)`.
abbrev pub state_of_code : DeliveryState → Option ReasonCode → DeliveryState
state_of_code success none = success
state_of_code success (some code) = if code.is_success then success else DeliveryState.rejected

abbrev code_texts : Option ReasonCode → List String
code_texts none = []
code_texts (some code) = code.text ∷ []

-- PUBACK and PUBCOMP are final and complete the command, PUBREC and PUBREL dispatch it; the four
-- functions of the source differ in the state and the flag.
unfoldable pub routed_result_from_v5_ack :
    DeliveryState → Bool → Pending → String → V5Ack → RoutedResult × Pending
unfolding routed_result_from_packet_id_with_transport mqtt_result_meta reason_string_from_props_opt
routed_result_from_v5_ack success final pending device_id packet =
    routed_result_from_packet_id_with_transport pending device_id packet.packet_id
      (state_of_code success packet.reason_code)
      (map_option (λ (code : ReasonCode). code.text)
        (filter_option (λ code. code.is_failure) packet.reason_code))
      final
      (some (
        mqtt_result_meta (some packet.packet_id) (code_texts packet.reason_code)
          (reason_string_from_props_opt packet.props)))

unfoldable pub failed_codes : List ReasonCode → List String
failed_codes [] = []
failed_codes (code ∷ codes) =
    if code.is_failure then code.text ∷ failed_codes codes else failed_codes codes

-- `join(",")`.
unfoldable pub join : List String → String
join [] = ""
join (text ∷ []) = text
join (text ∷ more ∷ texts) = str_append (str_append text ",") (join (more ∷ texts))

abbrev pub state_of_failed : List String → DeliveryState
state_of_failed [] = DeliveryState.completed
state_of_failed (code ∷ codes) = DeliveryState.rejected

-- SUBACK and UNSUBACK.
unfoldable pub routed_result_from_v5_suback : Pending → String → V5Suback → RoutedResult × Pending
unfolding routed_result_from_packet_id_with_transport mqtt_result_meta reason_string_from_props
    failed_codes join
routed_result_from_v5_suback pending device_id packet =
    let failed : List String = failed_codes packet.reason_codes in
    routed_result_from_packet_id_with_transport pending device_id packet.packet_id
      (state_of_failed failed) (then_some (not (is_empty failed)) (join failed)) true
      (some (
        mqtt_result_meta (some packet.packet_id)
          (map (λ (code : ReasonCode). code.text) packet.reason_codes)
          (reason_string_from_props packet.props)))

abbrev list_of {ℓ} : {A : Type ℓ} → Option A → List A
list_of none = []
list_of (some a) = a ∷ []

-- The result of a packet that answers no command.
unfoldable pub session_result :
    String → String → DeliveryState → Option String → Option (List Property) → RoutedResult
unfolding mqtt_result_meta reason_string_from_props_opt mqtt_source
session_result command_id device_id state reason_code_text props = record {
  source = mqtt_source device_id;
  result = record {
    command_id = command_id;
    device_id = device_id;
    state = state;
    payload = none;
    error = elim state [ DeliveryState.rejected ↦ reason_code_text | _ ↦ none ];
    correlation = none;
  };
  transport =
      some (mqtt_result_meta none (list_of reason_code_text) (reason_string_from_props_opt props));
}

abbrev pub disconnect_state : Option DisconnectReasonCode → DeliveryState
disconnect_state none = DeliveryState.completed
disconnect_state (some DisconnectReasonCode.normal_disconnection) = DeliveryState.completed
disconnect_state (some DisconnectReasonCode.disconnect_with_will_message) = DeliveryState.completed
disconnect_state (some _) = DeliveryState.rejected
