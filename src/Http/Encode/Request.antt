-- ===== src/Http/Encode/Request.antt =====
-- What a request holds that the encoder builds.
use ferredge.Prelude.{
  ◌≡◌, refl, Result, ℕ, String, Option, none, some, List, [], ok, err, unwrap_or, lookup, ◌or◌,
  if◌then◌else◌, eq_ignore_ascii_case, Option-cases, Result-cases, inl, inr, arith,
}
use ferredge.Core.Device.{DeviceResource}
use ferredge.Http.Types.{
  HttpNativePlan, HttpRequest, HttpResourceAttributes, HttpDevice, HttpCommandConversionError,
  unknown_resource,
}
use ferredge.Http.Encode.{header_value, merge_headers, body_of, built, encode}
use ferredge.Http.Encode.Headers.{
  last_value, header_value-merge_headers, header_value-merge_content_type,
}

-- The value that a name should have: the declared content type, else the last planned header of
-- the name, else the resource's static header.
abbrev pub expected_header : HttpNativePlan → HttpResourceAttributes → String → Option String
expected_header planned attributes name =
    let planned_value =
      last_value planned.headers name or header_value (unwrap_or attributes.headers []) name in
    if eq_ignore_ascii_case "Content-Type" name
    then planned.content_type or planned_value
    else planned_value

pub record IsRequestFor (planned : HttpNativePlan) (attributes : HttpResourceAttributes)
    (request : HttpRequest) : Type 0 where
  pub method : request.method ≡ unwrap_or planned.method attributes.method
  pub path : request.path ≡ unwrap_or planned.path attributes.slug
  pub body : body_of planned.payload ≡ ok request.body
  pub header :
      (name : String) → header_value request.headers name ≡ expected_header planned attributes name

built-IsRequestFor :
    (planned : HttpNativePlan) (attributes : HttpResourceAttributes) (body : Option (List ℕ))
    → body_of planned.payload ≡ ok body
    → IsRequestFor planned attributes (built planned attributes body)
built-IsRequestFor planned attributes body e = record {
  method = refl;
  path = refl;
  body = e;
  header = λ name. ground (
    arith,
    header_value-merge_content_type
        (merge_headers (unwrap_or attributes.headers []) planned.headers) planned.content_type name,
    header_value-merge_headers planned.headers (unwrap_or attributes.headers []) name,
  );
}

module _ (device : HttpDevice) (planned : HttpNativePlan) where
  encode_unknown :
      lookup planned.resource device.resources ≡ none
      → encode device planned ≡ err (unknown_resource planned.resource)
  encode_unknown e = unfold encode in rw e refl

  encode_refused :
      {resource : DeviceResource HttpResourceAttributes} {x : HttpCommandConversionError}
      → lookup planned.resource device.resources ≡ some resource
      → body_of planned.payload ≡ err x
      → encode device planned ≡ err x
  encode_refused e f = unfold encode in rw (e, f) refl

  encode-built :
      {resource : DeviceResource HttpResourceAttributes} {body : Option (List ℕ)}
      → lookup planned.resource device.resources ≡ some resource
      → body_of planned.payload ≡ ok body
      → encode device planned ≡ ok (built planned resource.resource_attributes body)
  encode-built e f = unfold encode in rw (e, f) refl

-- The answer to a plan, by the resource that it names and the body of its payload.
abbrev pub IsEncoded :
    HttpNativePlan
    → Option (DeviceResource HttpResourceAttributes)
    → Result (Option (List ℕ)) HttpCommandConversionError
    → Result HttpRequest HttpCommandConversionError
    → Type 0
IsEncoded planned none body answer = answer ≡ err (unknown_resource planned.resource)
IsEncoded planned (some resource) (err x) answer = answer ≡ err x
IsEncoded planned (some resource) (ok body) answer =
    (request : HttpRequest) × (answer ≡ ok request)
    × IsRequestFor planned resource.resource_attributes request

-- A plan for an unknown resource is refused by the resource's name, one whose payload has no body by
-- the payload's error; every other plan is encoded. The plan's overrides win over the resource's
-- method, path and headers, and each header name reads, in any case, the declared content type, else
-- the last planned value, else the resource's own.
pub encode-IsEncoded :
    (device : HttpDevice) (planned : HttpNativePlan)
    → IsEncoded planned
        (lookup planned.resource device.resources)
        (body_of planned.payload)
        (encode device planned)
encode-IsEncoded device planned = elim (Option-cases (lookup planned.resource device.resources)) [
  | inl missing ↦ rw (missing, IsEncoded) (encode_unknown device planned missing)
  | inr (resource, found) ↦ elim (Result-cases (body_of planned.payload)) [
    | inl (body, encoded) ↦
        rw (found, encoded, IsEncoded)
          (
            built planned resource.resource_attributes body,
            encode-built device planned found encoded,
            built-IsRequestFor planned resource.resource_attributes body encoded,
          )
    | inr (x, refused) ↦
        rw (found, refused, IsEncoded) (encode_refused device planned found refused)
  ]
]
