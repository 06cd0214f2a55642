-- ===== src/Bridge/Planner.antt =====
-- crates/ferredge-bridge/src/planner.rs.
pub mod Envelope
pub mod Carried
pub mod Outward
pub mod Results
use ferredge.Prelude.{
  ℕ, Bool, true, false, not, String, Option, none, some, List, [], Result, ok, err, then_some,
  if◌then◌else◌, filter_option,
}
use ferredge.Core.Protocol.{ProtocolId}
use ferredge.Core.Headers
use ferredge.Core.Headers.{Headers}
use ferredge.Core.Meta.{TransportMeta}
use ferredge.Core.Payload.{PayloadValue}
use ferredge.Core.Route.{Route, AddressedAccessMeta, Correlation}
use ferredge.Core.Command.{
  DeliveryState, DeliveryGuarantee, Intent, Command, CommandResult, EndpointRef, RoutedEvent,
  RoutedResult, RequestOptions,
}
use ferredge.Bridge.Message.{
  BridgeCapability, BridgeOp, RequestResponseAction, MessagingAction, MessagingOp,
  RegisterAccessAction, BridgeFaultCategory, BridgeFault, BridgePlannerError, BridgeCommand,
  BridgeEvent, BridgeMessageMeta, BridgeOutcome, BridgeResult, BridgeMessage,
}

-- The capture's headers are moved out of it; an empty set counts as none.
unfoldable pub split_capture_headers : Option TransportMeta → Option TransportMeta × Option Headers
unfolding Headers.is_empty
split_capture_headers (some meta) = (
  some (record meta { headers = none }),
  filter_option (λ headers. not (Headers.is_empty headers)) meta.headers,
)
split_capture_headers none = (none, none)

abbrev pub merge_capture : Headers → Option Headers → Headers
merge_capture headers (some capture_headers) = Headers.merge headers capture_headers
merge_capture headers none = headers

unfoldable pub capture_with_headers :
    Option TransportMeta → Headers → Option TransportMeta × Option Headers
unfolding split_capture_headers Headers.merge
capture_with_headers transport headers =
    let (transport', capture_headers) = split_capture_headers transport in
    let merged = merge_capture headers capture_headers in
    (transport', then_some (not (Headers.is_empty merged)) merged)

-- The struct literal that ends `command_to_request_response`.
unfoldable pub request_response_command :
    Command → String → RequestResponseAction → Option PayloadValue → RequestOptions → BridgeMessage
unfolding capture_with_headers
request_response_command command resource action payload options =
    let (transport, headers) = capture_with_headers options.extensions options.headers in
    BridgeMessage.command (record {
      id = command.id;
      source_device_id = command.source_device_id;
      target_device_id = command.target_device_id;
      capability = BridgeCapability.request_response true;
      operation = BridgeOp.request_response (record {
        action = action;
        method = options.method;
        content_type = options.content_type;
      });
      payload = payload;
      route = Route.request_response resource options.path;
      transport = transport;
      headers = headers;
      correlation = command.correlation;
    })

unfoldable pub command_to_request_response : Command → Result BridgeMessage BridgePlannerError
unfolding request_response_command
command_to_request_response command = elim command.intent [
  | Intent.read resource options ↦
      ok (request_response_command command resource RequestResponseAction.read none options)
  | Intent.write resource payload options ↦
      ok (
        request_response_command command resource RequestResponseAction.write (some payload)
          options)
  | Intent.invoke operation args options ↦
      ok (request_response_command command operation RequestResponseAction.invoke args options)
  | _ ↦ err BridgePlannerError.unsupported_intent
]

-- The struct literals of `command_to_messaging`, which differ in the arguments.
unfoldable pub messaging_command :
    Command
    → String
    → MessagingOp
    → Option PayloadValue
    → Option TransportMeta × Option Headers
    → BridgeMessage
messaging_command command topic operation payload (transport, headers) =
    BridgeMessage.command (record {
      id = command.id;
      source_device_id = command.source_device_id;
      target_device_id = command.target_device_id;
      capability = BridgeCapability.messaging true;
      operation = BridgeOp.messaging operation;
      payload = payload;
      route = Route.messaging topic;
      transport = transport;
      headers = headers;
      correlation = command.correlation;
    })

unfoldable pub command_to_messaging : Command → Result BridgeMessage BridgePlannerError
unfolding messaging_command capture_with_headers
command_to_messaging command = elim command.intent [
  | Intent.send channel payload options ↦ ok (
      messaging_command command channel.name
        (record {
          action = MessagingAction.publish;
          delivery = options.delivery;
          durable_name = none;
          shared_group = none;
        })
        (some payload) (capture_with_headers options.extensions options.headers))
  | Intent.subscribe channel options ↦ ok (
      messaging_command command channel.name
        (record {
          action = MessagingAction.subscribe;
          delivery = options.delivery;
          durable_name = options.durable_name;
          shared_group = options.shared_group;
        })
        none (capture_with_headers options.extensions []))
  | Intent.unsubscribe channel ↦ ok (
      messaging_command command channel.name
        (record {
          action = MessagingAction.unsubscribe;
          delivery = none;
          durable_name = none;
          shared_group = none;
        })
        none (none, none))
  | _ ↦ err BridgePlannerError.unsupported_intent
]

unfoldable pub bridge_register_command :
    Command
    → String
    → AddressedAccessMeta
    → ℕ
    → RegisterAccessAction
    → Option PayloadValue
    → BridgeMessage
bridge_register_command command resource register unit_id action payload =
    BridgeMessage.command (record {
      id = command.id;
      source_device_id = command.source_device_id;
      target_device_id = command.target_device_id;
      capability = BridgeCapability.register_access true;
      operation = BridgeOp.register_access action;
      payload = payload;
      route = Route.addressed_access resource register (some unit_id);
      transport = none;
      headers = none;
      correlation = command.correlation;
    })

unfoldable pub command_to_register_access :
    Command → AddressedAccessMeta → ℕ → Result BridgeMessage BridgePlannerError
unfolding bridge_register_command
command_to_register_access command register unit_id = elim command.intent [
  | Intent.read resource options ↦
      ok (bridge_register_command command resource register unit_id RegisterAccessAction.read none)
  | Intent.write resource payload options ↦ ok (
      bridge_register_command command resource register unit_id RegisterAccessAction.write
        (some payload))
  | _ ↦ err BridgePlannerError.unsupported_intent
]
