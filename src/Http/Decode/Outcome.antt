-- ===== src/Http/Decode/Outcome.antt =====
-- What the bridge sees of an HTTP response.
use ferredge.Prelude.{
  Option-cases, inl, inr, eq_ignore_ascii_case, ◌≡◌, refl, ◌∙◌, ap, ℕ, ◌<◌, ◌^◌, String, false, not,
  Option, none, some, List, [], ◌∷◌, ok, map_ok, if◌then◌else◌, ltb, then_some, is_empty,
  filter_option, str_append, to_decimal, arith,
}
use ferredge.Core.Protocol
use ferredge.Core.Route.Correlated.{IsCorrelated}
use ferredge.Core.Route.{correlation_as_borrowed_id}
use ferredge.Core.Headers
use ferredge.Core.Headers.{Headers}
use ferredge.Core.Meta.{TransportMeta}
use ferredge.Core.Payload.{PayloadValue}
use ferredge.Core.Command.{DeliveryState, Command, RequestOptions}
use ferredge.Bridge.Message.{BridgeMessage, BridgeResult, BridgeOutcome, BridgeFaultCategory}
use ferredge.Bridge.Planner.Outward.{bridge_result, outcome_of}
use ferredge.Http.Types.{HttpResponse, HttpDevice}
use ferredge.Http.Meta.{into_transport_meta, try_from_transport_meta}
use ferredge.Http.Meta.Carried.{with_headers, try_from-with_headers}
use ferredge.Http.Meta.RoundTrip.{try_from-into}
use ferredge.Http.Encode.{header_value}
use ferredge.Http.Decode.{
  target_of, meta_of_response, correlation_of, state_of_status, error_of_status,
  http_payload_from_response_body, decode_bridge, decode_routed, routed_result,
}

-- A status below 400 is a success; any other is a rejection that must not be tried again, with the
-- status in its text.
abbrev pub outcome_of_status : ℕ → Option PayloadValue → BridgeOutcome
outcome_of_status status payload =
    if ltb status 400
    then BridgeOutcome.success payload
    else let text = some (str_append "http status " (to_decimal status)) in
      BridgeOutcome.failure DeliveryState.rejected payload text (record {
        category = BridgeFaultCategory.rejected;
        protocol_code = none;
        retryable = false;
        source = some (record { protocol = some Protocol.http; location = none });
        detail = text;
      })

correlation_of-IsCorrelated :
    (command : Command) (resource : String)
    → IsCorrelated command.id resource command.correlation (correlation_of command resource)
correlation_of-IsCorrelated command resource = elim (Option-cases command.correlation) [
  | inl e ↦ rw (e, IsCorrelated) refl
  | inr (own, e) ↦ rw (e, IsCorrelated) (ap some (correlation_as_borrowed_id own))
]

header_value-get :
    (headers : List (String × String)) (name : String)
    → header_value headers name ≡ Headers.get (Headers.from_pairs headers) name
unfolding header_value Headers.get Headers.from_pairs
header_value-get [] name = refl
header_value-get ((key, value) ∷ headers) name =
    ap (λ rest. if eq_ignore_ascii_case key name then some value else rest)
      (header_value-get headers name)

promoted :
    (headers : List (String × String))
    → filter_option
        (λ hs. not (Headers.is_empty hs))
        (then_some (not (is_empty headers)) (Headers.from_pairs headers))
      ≡ then_some (not (is_empty headers)) (Headers.from_pairs headers)
unfolding Headers.is_empty Headers.from_pairs
promoted [] = refl
promoted (h ∷ hs) = refl

outcome-status :
    (status : ℕ) (payload : Option PayloadValue)
    → outcome_of Protocol.http (state_of_status status) payload (error_of_status status)
      ≡ outcome_of_status status payload
unfolding outcome_of
outcome-status status payload = ground arith

module _ (from_utf8 : List ℕ → Option String) (device : HttpDevice) (command : Command)
    (response : HttpResponse) (resource : String) (options : RequestOptions) where
  pub record IsResultOf (result : BridgeResult) : Type 0 where
    pub device_id : result.meta.source.device_id ≡ device.id
    pub command_id : result.meta.command_id ≡ command.id
    pub correlation : IsCorrelated command.id resource command.correlation result.meta.correlation
    pub headers :
        result.meta.headers
        ≡ then_some (not (is_empty response.headers)) (Headers.from_pairs response.headers)
    pub transport :
        (t : TransportMeta) × (result.meta.transport ≡ some t)
        × (try_from_transport_meta t
            ≡ ok (record {
              method = options.method;
              path = options.path;
              status_code = some response.status_code;
              content_type = Headers.get (Headers.from_pairs response.headers) "content-type";
              headers = none;
            }))
    pub outcome :
        result.outcome
        ≡ outcome_of_status response.status_code (
            some (
              http_payload_from_response_body from_utf8 response.body
                (header_value response.headers "content-type")))

  bridge_result-IsResultOf :
      response.status_code < 2 ^ 16
      → IsResultOf
          (bridge_result (routed_result from_utf8 device command response resource options))
  unfolding bridge_result routed_result
  bridge_result-IsResultOf fits = record {
    device_id = refl;
    command_id = refl;
    correlation = correlation_of-IsCorrelated command resource;
    headers = promoted response.headers;
    transport = (
      record (into_transport_meta (meta_of_response options response)) { headers = none },
      refl,
      try_from-with_headers none (into_transport_meta (meta_of_response options response))
          ∙ ap (map_ok (with_headers none))
              (try_from-into (meta_of_response options response) (λ n e. ground arith)).0
          ∙ ap
              (λ content_type. ok (record {
                method = options.method;
                path = options.path;
                status_code = some response.status_code;
                content_type = content_type;
                headers = none;
              }))
              (header_value-get response.headers "content-type"),
    );
    outcome = outcome-status response.status_code _;
  }

-- A response to a read, write or invoke command becomes one bridge result: from the device and for
-- the command, correlated as the command asks (or by its id and resource), a success below status
-- 400 and a rejection from 400 on; the response's headers are promoted to the envelope, and the
-- rest of the capture still decodes to the HTTP view of the exchange.
pub decode_bridge-IsResultOf :
    (from_utf8 : List ℕ → Option String) (device : HttpDevice) (command : Command)
    (response : HttpResponse) (resource : String) (options : RequestOptions)
    → target_of command.intent ≡ some (resource, options)
    → response.status_code < 2 ^ 16
    → (result : BridgeResult) × (decode_bridge from_utf8 device command response
        ≡ ok (BridgeMessage.result result))
      × IsResultOf from_utf8 device command response resource options result
unfolding decode_bridge
decode_bridge-IsResultOf from_utf8 device command response resource options target fits = (
  bridge_result (routed_result from_utf8 device command response resource options),
  rw (target, decode_bridge, decode_routed) refl,
  bridge_result-IsResultOf from_utf8 device command response resource options fits,
)
