-- ===== src/Http/Decode.antt =====
-- crates/ferredge-proto-http/src/lib.rs: a response as a routed result and as a bridge result.
pub mod Outcome
use ferredge.Prelude.{
  ℕ, String, Bool, not, Option, none, some, List, map, Result, ok, err, ◌>>=◌, map_ok, ◌or◌,
  map_option, if◌then◌else◌, then_some, ltb, leb, is_empty, starts_with, str_append, to_decimal,
}
use ferredge.Core.Protocol
use ferredge.Core.Headers
use ferredge.Core.Headers.{Headers}
use ferredge.Core.Meta.{TransportMeta}
use ferredge.Core.Payload.{PayloadValue}
use ferredge.Core.Route.{Address, Correlation, correlation_as_borrowed}
use ferredge.Core.Command.{
  DeliveryState, Intent, Command, CommandResult, EndpointRef, RoutedResult, RoutedMessage,
  RequestOptions,
}
use ferredge.Bridge.Message.{BridgeMessage}
use ferredge.Bridge.Planner.Outward.{routed_result_to_bridge}
use ferredge.Http.Types.{
  HttpMeta, HttpResponse, HttpDevice, HttpCommandConversionError, unsupported_intent,
}
use ferredge.Http.Meta.{into_transport_meta}
use ferredge.Http.Encode.{header_value}

-- The names and options of a request/response intent.
unfoldable pub target_of : Intent → Option (String × RequestOptions)
target_of (Intent.read resource options) = some (resource, options)
target_of (Intent.write resource payload options) = some (resource, options)
target_of (Intent.invoke operation args options) = some (operation, options)
target_of _ = none

abbrev pub is_text : Option String → Bool
is_text none = Bool.false
is_text (some content_type) = starts_with content_type "text/"

abbrev pub state_of_status : ℕ → DeliveryState
state_of_status status = if ltb status 400 then DeliveryState.completed else DeliveryState.rejected

abbrev pub error_of_status : ℕ → Option String
error_of_status status = then_some (leb 400 status) (str_append "http status " (to_decimal status))

-- The command's own correlation, else one that names the command and its resource.
abbrev pub correlation_of : Command → String → Option Correlation
correlation_of command resource =
    map_option correlation_as_borrowed command.correlation
    or some (record { request_id = command.id; reply_to = some (Address.resource resource) })

abbrev pub meta_of_response : RequestOptions → HttpResponse → HttpMeta
meta_of_response options response = record {
  method = options.method;
  path = options.path;
  status_code = some response.status_code;
  content_type = header_value response.headers "content-type";
  headers = then_some (not (is_empty response.headers)) (Headers.from_pairs response.headers);
}

-- `from_utf8` is the standard library's check that bytes are text.
module _ (from_utf8 : List ℕ → Option String) where
  unfoldable pub http_payload_from_response_body : List ℕ → Option String → PayloadValue
  http_payload_from_response_body body content_type =
      if is_text content_type
      then elim (from_utf8 body) [
        | some text ↦ PayloadValue.string text
        | none ↦ PayloadValue.bytes body
      ]
      else PayloadValue.bytes body

  unfoldable pub routed_result :
      HttpDevice → Command → HttpResponse → String → RequestOptions → RoutedResult
  unfolding header_value http_payload_from_response_body into_transport_meta correlation_as_borrowed
      to_decimal Headers.from_pairs
  routed_result device command response resource options = record {
    source = record { device_id = device.id; protocol = Protocol.http };
    result = record {
      command_id = command.id;
      device_id = device.id;
      state = state_of_status response.status_code;
      payload = some (
          http_payload_from_response_body response.body
            (header_value response.headers "content-type"));
      error = error_of_status response.status_code;
      correlation = correlation_of command resource;
    };
    transport = some (into_transport_meta (meta_of_response options response));
  }

  -- `RoutedMessage::try_from(HttpDecodedResponse)`; the routed result is its only success.
  unfoldable pub decode_routed :
      HttpDevice → Command → HttpResponse → Result RoutedResult HttpCommandConversionError
  unfolding routed_result
  decode_routed device command response = elim (target_of command.intent) [
    | none ↦ err unsupported_intent
    | some (resource, options) ↦ ok (routed_result device command response resource options)
  ]

  unfoldable pub decode_bridge :
      HttpDevice → Command → HttpResponse → Result BridgeMessage HttpCommandConversionError
  unfolding decode_routed routed_result_to_bridge
  decode_bridge device command response =
      map_ok routed_result_to_bridge (decode_routed device command response)
