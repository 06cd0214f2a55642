-- ===== src/Http/Encode.antt =====
-- crates/ferredge-proto-http/src/lib.rs: `HttpRequestEncoder` and the helpers on bodies and headers.
pub mod Headers
pub mod Request
use ferredge.Prelude.{
  ℕ, String, Bool, Option, none, some, List, [], ◌∷◌, Result, ok, err, ◌>>=◌, map_ok, ok_or,
  unwrap_or, if◌then◌else◌, as_bytes, lookup, eq_ignore_ascii_case,
}
use ferredge.Core.Payload.{PayloadValue}
use ferredge.Core.Device.{DeviceResource}
use ferredge.Http.Types.{
  HttpNativePlan, HttpRequest, HttpResourceAttributes, HttpDevice, HttpCommandConversionError,
  invalid_payload, unknown_resource,
}

unfoldable pub http_body_from_payload : PayloadValue → Result (List ℕ) HttpCommandConversionError
unfolding as_bytes
http_body_from_payload (PayloadValue.bytes bytes) = ok bytes
http_body_from_payload (PayloadValue.string value) = ok (as_bytes value)
http_body_from_payload PayloadValue.null = ok []
http_body_from_payload _ =
    err (invalid_payload "HTTP bodies currently support only string or bytes payloads")

-- `as_ref().map(http_body_from_payload).transpose()`
abbrev pub body_of : Option PayloadValue → Result (Option (List ℕ)) HttpCommandConversionError
body_of none = ok none
body_of (some payload) = map_ok some (http_body_from_payload payload)

-- The first value whose name matches in any case.
unfoldable pub header_value : List (String × String) → String → Option String
header_value [] name = none
header_value ((key, value) ∷ headers) name =
    if eq_ignore_ascii_case key name then some value else header_value headers name

-- The first pair of the name, in any case, is overwritten where it stands; else the pair is added.
unfoldable pub merge_header : List (String × String) → String → String → List (String × String)
merge_header [] key value = (key, value) ∷ []
merge_header ((existing_key, existing_value) ∷ headers) key value =
    if eq_ignore_ascii_case existing_key key
    then (key, value) ∷ headers
    else (existing_key, existing_value) ∷ merge_header headers key value

-- `for (key, value) in &planned.headers { merge_header(…) }`
unfoldable pub merge_headers :
    List (String × String) → List (String × String) → List (String × String)
unfolding merge_header
merge_headers headers [] = headers
merge_headers headers ((key, value) ∷ planned) =
    merge_headers (merge_header headers key value) planned

abbrev pub merge_content_type : List (String × String) → Option String → List (String × String)
merge_content_type headers none = headers
merge_content_type headers (some content_type) = merge_header headers "Content-Type" content_type

-- The request that `encode` ends with.
abbrev pub built : HttpNativePlan → HttpResourceAttributes → Option (List ℕ) → HttpRequest
built planned attributes body =
    let headers = merge_headers (unwrap_or attributes.headers []) planned.headers in
    record {
      method = unwrap_or planned.method attributes.method;
      path = unwrap_or planned.path attributes.slug;
      body = body;
      headers = merge_content_type headers planned.content_type;
    }

unfoldable pub encode : HttpDevice → HttpNativePlan → Result HttpRequest HttpCommandConversionError
unfolding lookup http_body_from_payload merge_headers
encode device planned =
    ok_or (lookup planned.resource device.resources) (unknown_resource planned.resource)
    >>= λ resource_def.
        body_of planned.payload >>= λ body. ok (built planned resource_def.resource_attributes body)
