-- ===== src/Bridge/Planner/Carried.antt =====
-- Where the headers of the options and of the capture go.
use ferredge.Prelude.{
  ◌≡◌, ◌≢◌, refl, sym, not, Option, none, some, [], ◌∷◌, ◌++◌, map_option, unwrap_or, append-nil,
  then_some, filter_option,
}
use ferredge.Core.Headers
use ferredge.Core.Headers.{Headers}
use ferredge.Core.Meta.{TransportMeta}
use ferredge.Bridge.Planner.{capture_with_headers, merge_capture}

abbrev pub carried : Option TransportMeta → Headers
carried none = []
carried (some meta) = unwrap_or meta.headers []

abbrev pub stripped : TransportMeta → TransportMeta
stripped meta = record meta { headers = none }

merged :
    (headers : Headers) (captured : Option Headers)
    → merge_capture headers (filter_option (λ hs. not (Headers.is_empty hs)) captured)
      ≡ headers ++ unwrap_or captured []
unfolding Headers.is_empty Headers.merge
merged headers none = sym (append-nil headers)
merged headers (some []) = sym (append-nil headers)
merged headers (some (h ∷ hs)) = refl

given :
    (headers : Headers)
    → unwrap_or (then_some (not (Headers.is_empty headers)) headers) [] ≡ headers
unfolding Headers.is_empty
given [] = refl
given (h ∷ hs) = refl

never_empty : (headers : Headers) → then_some (not (Headers.is_empty headers)) headers ≢ some []
unfolding Headers.is_empty
never_empty [] e = cc
never_empty (h ∷ hs) e = cc

-- The envelope's headers are those of the options followed by those of the capture, in order and
-- with duplicates, and are absent rather than empty; the capture keeps its protocol and its entries
-- and loses only its headers.
pub capture_with_headers_lem :
    (transport : Option TransportMeta) (headers : Headers)
    → (unwrap_or (capture_with_headers transport headers).1 [] ≡ headers ++ carried transport)
      × ((capture_with_headers transport headers).1 ≢ some [])
      × ((capture_with_headers transport headers).0 ≡ map_option stripped transport)
unfolding capture_with_headers
capture_with_headers_lem none headers =
    (rw (given headers, append-nil headers) refl, never_empty headers, refl)
capture_with_headers_lem (some meta) headers = (
  rw (given (merge_capture headers (filter_option (λ hs. not (Headers.is_empty hs)) meta.headers)))
      (merged headers meta.headers),
  never_empty _,
  refl,
)
