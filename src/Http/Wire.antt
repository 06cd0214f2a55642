-- ===== src/Http/Wire.antt =====
-- crates/ferredge-proto-http/src/handler.rs: one request over a socket and what its response says.
pub mod Parsed
pub mod Send
use text.Mathlib.Text.{find?}
use Prim.Native.Char.{Char, code}
use Prim.Native.String
use ferredge.Prelude.{
  and_then, ◌or◌, map_option, ℕ, zero, suc, ◌+◌, ◌-◌, ◌*◌, ◌^◌, Bool, true, false, ◌&&◌, ◌||◌,
  String, str_append, str_eq, starts_with, strip_prefix, is_some, Option, none, some, List, [], ◌∷◌,
  ◌++◌, Result, ok, err, map_err, leb, ltb, ◌==◌, if◌then◌else◌, length, take, drop, to_decimal,
  as_bytes, eq_ignore_ascii_case, codes, ◌>>=◌, ◌>>◌,
}
use ferredge.Core.Net.{
  Stream, write_all, colons, bracket_ipv6_host, format_host_port, normalize_host_port,
}
use ferredge.Http.Types.{HttpRequest, HttpResponse}
use ferredge.Http.WireText.{
  until_slash, after_bracket, is_whitespace, trim_start, trim_end, trim, word, after_word,
  second_word, prepend, lines_of, digits, within, parse_uint, named, split_colon,
}

pub record ParsedEndpoint : Type 0 where
  pub connect_target : String
  pub host_header : String

-- The errors of the network are those of the stream.
pub data HttpTransportError (E : Type 0) : Type 0 where
  missing_authority malformed_ipv6_authority : HttpTransportError E
  connect send_request send_request_body flush_request read_response : E → HttpTransportError E
  invalid_response : String → HttpTransportError E

abbrev scheme : String → String × ℕ
scheme endpoint = elim (strip_prefix "http://" endpoint) [
  | some rest ↦ (rest, 80)
  | none ↦ elim (strip_prefix "https://" endpoint) [
    | some rest ↦ (rest, 443)
    | none ↦ (endpoint, 80)
  ]
]

abbrev bracketed :
    {E : Type 0} → String → ℕ → Option String → Result ParsedEndpoint (HttpTransportError E)
bracketed authority default_port none = err malformed_ipv6_authority
bracketed authority default_port (some suffix) =
    if str_eq suffix ""
    then ok (record {
      connect_target = format_host_port authority default_port;
      host_header = authority;
    })
    else if starts_with suffix ":"
    then ok (record { connect_target = authority; host_header = authority })
    else err malformed_ipv6_authority

abbrev endpoint_of : {E : Type 0} → String → ℕ → Result ParsedEndpoint (HttpTransportError E)
endpoint_of authority default_port =
    if str_eq authority ""
    then err missing_authority
    else if starts_with authority "["
    then bracketed authority default_port (after_bracket authority)
    else if ltb 1 (colons (codes authority))
    then ok (record {
      connect_target = format_host_port authority default_port;
      host_header = bracket_ipv6_host authority;
    })
    else if colons (codes authority) == 1
    then ok (record { connect_target = authority; host_header = authority })
    else ok (record {
      connect_target = normalize_host_port authority default_port;
      host_header = authority;
    })

unfoldable pub parse_endpoint : {E : Type 0} → String → Result ParsedEndpoint (HttpTransportError E)
unfolding normalize_host_port
parse_endpoint endpoint =
    let (authority_and_path, default_port) = scheme endpoint in
    endpoint_of (until_slash authority_and_path) default_port

-- `window == b"\r\n\r\n"` for the first four bytes.
abbrev pub at_terminator : List ℕ → Bool
at_terminator (a ∷ b ∷ c ∷ d ∷ _) = a == 13 && b == 10 && c == 13 && d == 10
at_terminator _ = false

-- The position of the first blank line.
unfoldable pub header_end_of : List ℕ → Option ℕ
header_end_of [] = none
header_end_of (byte ∷ bytes) =
    let rest = header_end_of bytes in
    if at_terminator (byte ∷ bytes) then some 0 else map_option suc rest

abbrev with_header : Option (String × String) → List (String × String) → List (String × String)
with_header none headers = headers
with_header (some (name, value)) headers = (trim name, trim value) ∷ headers

unfoldable pub headers_of : List String → List (String × String)
headers_of [] = []
headers_of (line ∷ lines) = with_header (split_colon line) (headers_of lines)

-- The first Content-Length that is a number, a `usize` of 64 bits.
unfoldable pub expected_len : List (String × String) → Option ℕ
unfolding eq_ignore_ascii_case parse_uint
expected_len [] = none
expected_len ((name, value) ∷ headers) =
    let rest = expected_len headers in
    if eq_ignore_ascii_case name "content-length"
    then parse_uint (2 ^ 64 - 1) value or rest
    else rest

abbrev pub too_short : Option ℕ → ℕ → Bool
too_short none body_len = false
too_short (some expected) body_len = ltb body_len expected

abbrev pub status_or_invalid : {E : Type 0} → Option ℕ → Result ℕ (HttpTransportError E)
status_or_invalid none = err (invalid_response "invalid status line")
status_or_invalid (some status) = ok status

abbrev pub status_of : {E : Type 0} → String → Result ℕ (HttpTransportError E)
status_of line = status_or_invalid (and_then (second_word line) (parse_uint 65_535))

abbrev pub checked : {E : Type 0} → Bool → HttpResponse → Result HttpResponse (HttpTransportError E)
checked true response = err (invalid_response "response body shorter than content-length")
checked false response = ok response

abbrev pub with_status :
    {E : Type 0}
    → List String
    → List ℕ
    → Result ℕ (HttpTransportError E)
    → Result HttpResponse (HttpTransportError E)
with_status lines body (err e) = err e
with_status lines body (ok status) =
    checked (too_short (expected_len (headers_of lines)) (length body))
      (record { status_code = status; headers = headers_of lines; body = body })

abbrev pub response_of :
    {E : Type 0} → List String → List ℕ → Result HttpResponse (HttpTransportError E)
response_of [] body = err (invalid_response "missing status line")
response_of (status_line ∷ lines) body = with_status lines body (status_of status_line)

abbrev pub after_head :
    {E : Type 0}
    → (List ℕ → String)
    → List ℕ
    → Option ℕ
    → Result HttpResponse (HttpTransportError E)
after_head lossy response none = err (invalid_response "missing header terminator")
after_head lossy response (some header_end) =
    response_of (lines_of (lossy (take header_end response))) (drop (header_end + 4) response)

-- `lossy` is `String::from_utf8_lossy`.
unfoldable pub parse_response :
    {E : Type 0} → (List ℕ → String) → List ℕ → Result HttpResponse (HttpTransportError E)
unfolding header_end_of lines_of headers_of expected_len parse_uint
parse_response lossy response = after_head lossy response (header_end_of response)
