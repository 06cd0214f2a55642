-- ===== src/Http/Plan.antt =====
-- crates/ferredge-proto-http/src/lib.rs: the native planner, and the plan of a bridge message.
use ferredge.Prelude.{
  String, Option, none, some, [], map, Result, ok, err, ◌>>=◌, ◌or◌, unwrap_or, map_option,
}
use ferredge.Core.Headers
use ferredge.Core.Headers.{Header, Headers}
use ferredge.Core.Meta
use ferredge.Core.Meta.{TransportMeta}
use ferredge.Core.Payload.{PayloadValue}
use ferredge.Core.Route.{Route}
use ferredge.Core.Command.{Intent, Command, RequestOptions}
use ferredge.Bridge.Message.{
  BridgeMessage, BridgeCommand, BridgeOp, RequestResponseOp, RequestResponseAction,
}
use ferredge.Http.Types.{
  HttpMeta, HttpNativePlan, HttpCommandConversionError, unsupported_intent, invalid_bridge_message,
}
use ferredge.Http.Meta as HttpMeta

abbrev pub header_pair : Header → String × String
header_pair header = (header.key, header.value)

unfoldable pub split_http_extensions :
    Option TransportMeta → Result HttpMeta HttpCommandConversionError
unfolding HttpMeta.try_from_transport_meta HttpMeta.default
split_http_extensions (some meta) = HttpMeta.try_from_transport_meta meta
split_http_extensions none = ok HttpMeta.default

abbrev pub merge_some : Headers → Option Headers → Headers
merge_some headers (some capture_headers) = Headers.merge headers capture_headers
merge_some headers none = headers

-- What follows the `match` on the intent.
unfoldable pub plan_request :
    String
    → RequestResponseAction
    → Option PayloadValue
    → RequestOptions
    → Result HttpNativePlan HttpCommandConversionError
unfolding split_http_extensions Headers.merge
plan_request resource action payload options =
    split_http_extensions options.extensions >>= λ capture. ok (record {
      resource = resource;
      action = action;
      payload = payload;
      method = options.method or capture.method;
      path = options.path or capture.path;
      content_type = options.content_type or capture.content_type;
      headers = map header_pair (merge_some options.headers capture.headers);
    })

-- `HttpCommandPlanner` as a native planner.
unfoldable pub plan_native : Command → Result HttpNativePlan HttpCommandConversionError
unfolding plan_request
plan_native command = elim command.intent [
  | Intent.read resource options ↦ plan_request resource RequestResponseAction.read none options
  | Intent.write resource payload options ↦
      plan_request resource RequestResponseAction.write (some payload) options
  | Intent.invoke operation args options ↦
      plan_request operation RequestResponseAction.invoke args options
  | _ ↦ err unsupported_intent
]

abbrev capture_of_transport : Option TransportMeta → Result HttpMeta HttpCommandConversionError
capture_of_transport (some transport) =
    HttpMeta.try_from_transport_meta (Meta.as_borrowed transport)
capture_of_transport none = ok HttpMeta.default

unfoldable pub plan_of_command :
    BridgeCommand
    → RequestResponseOp
    → String
    → Option String
    → Result HttpNativePlan HttpCommandConversionError
unfolding HttpMeta.try_from_transport_meta Meta.as_borrowed HttpMeta.default
plan_of_command command operation resource path =
    capture_of_transport command.transport >>= λ capture. ok (record {
      resource = resource;
      action = operation.action;
      payload = command.payload;
      method = operation.method or capture.method;
      path = path or capture.path;
      content_type = operation.content_type or capture.content_type;
      headers = unwrap_or (map_option (map header_pair) command.headers) [];
    })

abbrev plan_of_route :
    BridgeCommand → RequestResponseOp → Route → Result HttpNativePlan HttpCommandConversionError
plan_of_route command operation (Route.request_response resource path) =
    plan_of_command command operation resource path
plan_of_route command operation _ = err invalid_bridge_message

abbrev plan_of_operation :
    BridgeCommand → BridgeOp → Result HttpNativePlan HttpCommandConversionError
plan_of_operation command (BridgeOp.request_response operation) =
    plan_of_route command operation command.route
plan_of_operation command _ = err invalid_bridge_message

-- `HttpNativePlan::try_from(&BridgeMessage)`.
unfoldable pub plan_of_message : BridgeMessage → Result HttpNativePlan HttpCommandConversionError
unfolding plan_of_command
plan_of_message (BridgeMessage.command command) = plan_of_operation command command.operation
plan_of_message _ = err invalid_bridge_message
