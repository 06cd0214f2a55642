-- ===== src/Witness/Http.antt =====
-- The theorems on the HTTP adapter at concrete data.
use ferredge.Prelude.{
  ◌≡◌, refl, none, some, [], ◌∷◌, ok, ok_option, lookup, arith, eq_ignore_ascii_case,
}
use ferredge.Core.Payload.{PayloadValue}
use ferredge.Bridge.Message.{BridgeMessage, BridgeResult, RequestResponseAction}
use ferredge.Http.Types.{HttpMeta, HttpRequest, HttpNativePlan}
use ferredge.Http.Meta.{try_from_transport_meta, into_transport_meta, from_transport_meta, view}
use ferredge.Http.Meta.Reference.{reference, try_from-reference}
use ferredge.Http.Meta.RoundTrip.{IsStatus, try_from-into}
use ferredge.Http.Encode.{encode, body_of}
use ferredge.Http.Encode.Request.{IsEncoded, encode-IsEncoded}
use ferredge.Http.Request.{native_request, bridge_request}
use ferredge.Http.Request.Equivalence.{native_request-bridge_request}
use ferredge.Http.Decode.{decode_bridge, target_of}
use ferredge.Http.Decode.Outcome.{IsResultOf, decode_bridge-IsResultOf}
use ferredge.Witness.Data.{capture, request_options, write_setpoint, thermostat, refused, no_text}

native_request-bridge_request_example :
    native_request thermostat write_setpoint ≡ bridge_request thermostat write_setpoint
native_request-bridge_request_example = native_request-bridge_request thermostat write_setpoint

-- The declared type, the option's header over the resource's, and the captured path.
written_request :
    native_request thermostat write_setpoint
    ≡ ok (record {
      method = "PUT";
      path = "/v2/setpoint";
      body = some (50 ∷ 49 ∷ []);
      headers = ("Accept", "text/plain") ∷ ("X-Trace", "7") ∷ ("Content-Type", "text/plain") ∷ [];
    })
unfolding native_request eq_ignore_ascii_case
written_request = refl

try_from-reference_example : ok_option (try_from_transport_meta capture) ≡ reference capture
try_from-reference_example = try_from-reference capture

abbrev exchange_view : HttpMeta
exchange_view = record {
  method = some "PUT";
  path = none;
  status_code = some 503;
  content_type = none;
  headers = none;
}

exchange_view-IsStatus : IsStatus exchange_view
exchange_view-IsStatus n e = ground arith

try_from-into_example :
    (try_from_transport_meta (into_transport_meta exchange_view) ≡ ok exchange_view)
    × (from_transport_meta (into_transport_meta exchange_view) ≡ some exchange_view)
    × (view (into_transport_meta exchange_view) ≡ some exchange_view)
try_from-into_example = try_from-into exchange_view exchange_view-IsStatus

abbrev setpoint_plan : HttpNativePlan
setpoint_plan = record {
  resource = "setpoint";
  action = RequestResponseAction.write;
  payload = some (PayloadValue.string "21");
  method = none;
  path = some "/v2/setpoint";
  content_type = some "text/plain";
  headers = ("Accept", "text/plain") ∷ [];
}

abbrev setpoint_request : HttpRequest
setpoint_request = record {
  method = "PUT";
  path = "/v2/setpoint";
  body = some (50 ∷ 49 ∷ []);
  headers = ("Accept", "text/plain") ∷ ("Content-Type", "text/plain") ∷ [];
}

setpoint_encoded : encode thermostat setpoint_plan ≡ ok setpoint_request
unfolding encode eq_ignore_ascii_case
setpoint_encoded = refl

encode-IsEncoded_example :
    IsEncoded setpoint_plan
      (lookup setpoint_plan.resource thermostat.resources)
      (body_of setpoint_plan.payload)
      (encode thermostat setpoint_plan)
encode-IsEncoded_example = encode-IsEncoded thermostat setpoint_plan

decode_bridge-IsResultOf_example :
    (result : BridgeResult) × (decode_bridge no_text thermostat write_setpoint refused
      ≡ ok (BridgeMessage.result result))
    × IsResultOf no_text thermostat write_setpoint refused "setpoint" request_options result
unfolding target_of
decode_bridge-IsResultOf_example =
    decode_bridge-IsResultOf no_text thermostat write_setpoint refused "setpoint" request_options
      refl (omega arith)
