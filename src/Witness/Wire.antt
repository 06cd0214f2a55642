-- ===== src/Witness/Wire.antt =====
-- HTTP responses and endpoints of the wire handler at concrete data.
use ferredge.Prelude.{◌≡◌, refl, ℕ, String, List, [], ◌∷◌, ok, err}
use ferredge.Http.Types.{HttpResponse}
use ferredge.Http.Wire.{HttpTransportError, parse_endpoint, parse_response}
use ferredge.Http.Wire.Parsed.{IsParsed, parse_response-IsParsed}

abbrev head_text : List ℕ → String
head_text bytes = "HTTP/1.1 201 Created\r\nX-Test: ok"

abbrev created : HttpResponse
created = record { status_code = 201; headers = ("X-Test", "ok") ∷ []; body = 104 ∷ 105 ∷ [] }

abbrev created_bytes : List ℕ
created_bytes = 72 ∷ 13 ∷ 10 ∷ 13 ∷ 10 ∷ 104 ∷ 105 ∷ []

parse_response-IsParsed_example : IsParsed created_bytes created
unfolding parse_response
parse_response-IsParsed_example =
    parse_response-IsParsed {E = String} head_text created_bytes created refl

default_port :
    parse_endpoint {E = String} "https://example.com/api/v1"
    ≡ ok (record { connect_target = "example.com:443"; host_header = "example.com" })
unfolding parse_endpoint
default_port = refl

bracketed_ipv6 :
    parse_endpoint {E = String} "http://[::1]:8080"
    ≡ ok (record { connect_target = "[::1]:8080"; host_header = "[::1]:8080" })
unfolding parse_endpoint
bracketed_ipv6 = refl

bare_ipv6 :
    parse_endpoint {E = String} "2001:db8::10"
    ≡ ok (record { connect_target = "[2001:db8::10]:80"; host_header = "[2001:db8::10]" })
unfolding parse_endpoint
bare_ipv6 = refl

unclosed :
    parse_endpoint {E = String} "http://[::1/api" ≡ err HttpTransportError.malformed_ipv6_authority
unfolding parse_endpoint
unclosed = refl

no_authority : parse_endpoint {E = String} "http:///api" ≡ err HttpTransportError.missing_authority
unfolding parse_endpoint
no_authority = refl
