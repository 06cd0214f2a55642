-- ===== src/Http/Request/Equivalence.antt =====
-- The direct path and the path through the bridge representation build the same request.
use ferredge.Prelude.{
  ◌≡◌, refl, sym, ap, ◌∙◌, String, not, Option, none, some, [], ◌∷◌, map, ok, err, ◌>>=◌, map_ok,
  Result-cases, inl, inr, unwrap_or, map_option, append-nil, filter_option, then_some,
}
use ferredge.Core.Headers
use ferredge.Core.Headers.{Headers}
use ferredge.Core.Meta.{TransportMeta, as_borrowed}
use ferredge.Core.Meta.Laws.{as_borrowed_id}
use ferredge.Core.Route.{Correlation}
use ferredge.Core.Payload.{PayloadValue}
use ferredge.Core.Command.{Intent, Command, RequestOptions}
use ferredge.Bridge.Message.{RequestResponseAction, BridgePlannerError}
use ferredge.Bridge.Planner.{request_response_command, merge_capture}
use ferredge.Http.Types.{
  HttpDevice, HttpMeta, HttpCommandConversionError, unsupported_intent, bridge,
}
use ferredge.Http.Meta as HttpMeta
use ferredge.Http.Meta.Carried.{with_headers, try_from-with_headers, try_from-headers}
use ferredge.Http.Plan.{plan_request, plan_of_message, header_pair, merge_some}
use ferredge.Http.Encode.{encode}
use ferredge.Http.Request.{native_request, bridge_request}

pairs_of_headers :
    (hs : Headers)
    → unwrap_or (map_option (map header_pair) (then_some (not (Headers.is_empty hs)) hs)) []
      ≡ map header_pair hs
unfolding Headers.is_empty
pairs_of_headers [] = refl
pairs_of_headers (h ∷ hs) = refl

merged_headers :
    (headers : Headers) (captured : Option Headers)
    → merge_some headers captured
      ≡ merge_capture headers (filter_option (λ hs. not (Headers.is_empty hs)) captured)
unfolding Headers.is_empty Headers.merge
merged_headers headers none = refl
merged_headers headers (some []) = append-nil headers
merged_headers headers (some (h ∷ hs)) = refl

abbrev strip : TransportMeta → TransportMeta
strip meta = record meta { headers = none }

stripped_error :
    (meta : TransportMeta) (e : HttpCommandConversionError)
    → HttpMeta.try_from_transport_meta meta ≡ err e
    → HttpMeta.try_from_transport_meta (as_borrowed (strip meta)) ≡ err e
stripped_error meta e h =
    ap HttpMeta.try_from_transport_meta (as_borrowed_id (strip meta))
    ∙ try_from-with_headers none meta
    ∙ ap (map_ok (with_headers none)) h

stripped_view :
    (meta : TransportMeta) (view : HttpMeta)
    → HttpMeta.try_from_transport_meta meta ≡ ok view
    → HttpMeta.try_from_transport_meta (as_borrowed (strip meta)) ≡ ok (with_headers none view)
stripped_view meta view h =
    ap HttpMeta.try_from_transport_meta (as_borrowed_id (strip meta))
    ∙ try_from-with_headers none meta
    ∙ ap (map_ok (with_headers none)) h

module _ (command : Command) (resource : String) (action : RequestResponseAction)
    (payload : Option PayloadValue) where
  plan-no_capture :
      (headers : Headers) (content_type method path : Option String)
      → plan_of_message (
          request_response_command command resource action payload (record {
            headers = headers;
            content_type = content_type;
            method = method;
            path = path;
            extensions = none;
          }))
        ≡ plan_request resource action payload (record {
          headers = headers;
          content_type = content_type;
          method = method;
          path = path;
          extensions = none;
        })
  unfolding plan_of_message request_response_command plan_request
  plan-no_capture headers content_type method path = rw (pairs_of_headers headers) refl

  plan-capture :
      (headers : Headers) (content_type method path : Option String) (meta : TransportMeta)
      → plan_of_message (
          request_response_command command resource action payload (record {
            headers = headers;
            content_type = content_type;
            method = method;
            path = path;
            extensions = some meta;
          }))
        ≡ plan_request resource action payload (record {
          headers = headers;
          content_type = content_type;
          method = method;
          path = path;
          extensions = some meta;
        })
  unfolding plan_of_message request_response_command plan_request
  plan-capture headers content_type method path meta =
      elim (Result-cases (HttpMeta.try_from_transport_meta meta)) [
        | inl (view, e) ↦
            rw
              (
                e,
                stripped_view meta view e,
                pairs_of_headers (
                    merge_capture headers
                      (filter_option (λ hs. not (Headers.is_empty hs)) meta.headers)),
                ← merged_headers headers meta.headers,
                try_from-headers meta view e,
              )
              refl
        | inr (x, e) ↦ rw (e, stripped_error meta x e) refl
      ]

module _ (command : Command) (resource : String) (action : RequestResponseAction)
    (payload : Option PayloadValue) where
  plan_by_extensions :
      (headers : Headers) (content_type method path : Option String)
      (extensions : Option TransportMeta)
      → plan_of_message (
          request_response_command command resource action payload (record {
            headers = headers;
            content_type = content_type;
            method = method;
            path = path;
            extensions = extensions;
          }))
        ≡ plan_request resource action payload (record {
          headers = headers;
          content_type = content_type;
          method = method;
          path = path;
          extensions = extensions;
        })
  plan_by_extensions headers content_type method path none =
      plan-no_capture command resource action payload headers content_type method path
  plan_by_extensions headers content_type method path (some meta) =
      plan-capture command resource action payload headers content_type method path meta

  plan-request_response :
      (options : RequestOptions)
      → plan_of_message (request_response_command command resource action payload options)
        ≡ plan_request resource action payload options
  plan-request_response options =
      plan_by_extensions options.headers options.content_type options.method options.path
        options.extensions

-- What the two paths answer: the same for an intent of the request/response family, each its own
-- refusal for the others.
abbrev pub Agree : HttpDevice → Command → Intent → Type 0
Agree device command (Intent.read _ _) =
    native_request device command ≡ bridge_request device command
Agree device command (Intent.write _ _ _) =
    native_request device command ≡ bridge_request device command
Agree device command (Intent.invoke _ _ _) =
    native_request device command ≡ bridge_request device command
Agree device command _ =
    (native_request device command ≡ err unsupported_intent)
    × (bridge_request device command ≡ err (bridge BridgePlannerError.unsupported_intent))

module _ (device : HttpDevice) (id : String) (source : Option String) (target : String)
    (correlation : Option Correlation) where
  abbrev of_intent : Intent → Command
  of_intent intent = record {
    id = id;
    source_device_id = source;
    target_device_id = target;
    intent = intent;
    correlation = correlation;
  }

  agree : (intent : Intent) → Agree device (of_intent intent) intent
  unfolding native_request bridge_request
  agree (Intent.read resource options) =
      ap (λ p. p >>= encode device)
        (sym (
          plan-request_response (of_intent (Intent.read resource options)) resource
            RequestResponseAction.read none options))
  agree (Intent.write resource payload options) =
      ap (λ p. p >>= encode device)
        (sym (
          plan-request_response (of_intent (Intent.write resource payload options)) resource
            RequestResponseAction.write (some payload) options))
  agree (Intent.invoke operation args options) =
      ap (λ p. p >>= encode device)
        (sym (
          plan-request_response (of_intent (Intent.invoke operation args options)) operation
            RequestResponseAction.invoke args options))
  agree (Intent.send _ _ _) = (refl, refl)
  agree (Intent.subscribe _ _) = (refl, refl)
  agree (Intent.unsubscribe _) = (refl, refl)

-- For every device and every read, write or invoke command the direct path and the bridge path give
-- the same request or the same error, whatever the payload, the option overrides, the headers and
-- the capture, foreign and malformed captures included; for any other command both refuse.
pub native_request-bridge_request :
    (device : HttpDevice) (command : Command) → Agree device command command.intent
native_request-bridge_request device command =
    agree device command.id command.source_device_id command.target_device_id command.correlation
      command.intent
