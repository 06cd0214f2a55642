-- ===== src/Http/Wire/Send.antt =====
-- crates/ferredge-proto-http/src/handler.rs: `send_request` over a socket.

use ferredge.Prelude.{
  map_option, ℕ, zero, suc, String, str_append, Option, none, some, List, [], ◌∷◌, ◌++◌, Result, ok,
  err, map_err, length, to_decimal, as_bytes,
}
use ferredge.Core.Net.{Stream, write_all}
use ferredge.Http.Types.{HttpRequest, HttpResponse}
use ferredge.Http.Wire.{
  read_response, flush_request, send_request_body, connect, send_request, HttpTransportError,
  parse_endpoint, parse_response,
}

abbrev header_lines : List (String × String) → String
header_lines [] = ""
header_lines ((key, value) ∷ headers) =
    str_append (str_append (str_append key ": ") (str_append value "\r\n")) (header_lines headers)

abbrev length_line : Option (List ℕ) → String
length_line none = ""
length_line (some body) =
    str_append (str_append "Content-Length: " (to_decimal (length body))) "\r\n"

-- The text that goes before the body.
unfoldable pub wire_request : HttpRequest → String → String
unfolding to_decimal
wire_request request host_header =
    str_append
      (str_append
        (str_append (str_append request.method " ") (str_append request.path " HTTP/1.1\r\nHost: "))
        (str_append host_header "\r\n"))
      (str_append (header_lines request.headers)
        (str_append (length_line request.body) "Connection: close\r\n\r\n"))

module _ {S : Type 0} (stream : Stream S) (lossy : List ℕ → String) where
  abbrev Step : Type 0 → Type 0
  Step A = S → Option (Result A (HttpTransportError stream.Error) × S)

  abbrev then_step : {A B : Type 0} → Step A → (A → Step B) → Step B
  then_step m f s = elim (m s) [
    | none ↦ none
    | some (err e, s') ↦ some (err e, s')
    | some (ok a, s') ↦ f a s'
  ]

  abbrev told :
      {A : Type 0}
      → (stream.Error → HttpTransportError stream.Error)
      → (S → Option (Result A stream.Error × S))
      → Step A
  told error method s = elim (method s) [
    | none ↦ none
    | some (answer, s') ↦ some (map_err error answer, s')
  ]

  -- The `loop` that reads until there is nothing more; each round is one `read`.
  unfoldable pub read_to_end : ℕ → List ℕ → S → Option (Result (List ℕ) stream.Error × S)
  read_to_end zero response s = none
  read_to_end (suc fuel) response s =
      let (answer, s') = stream.read s in
      elim answer [
        | err e ↦ some (err e, s')
        | ok bytes ↦ elim bytes [
          | [] ↦ some (ok response, s')
          | byte ∷ more ↦ read_to_end fuel (response ++ byte ∷ more) s'
        ]
      ]

  abbrev write_body : Option (List ℕ) → Step (Unit {0})
  write_body none s = some (ok tt, s)
  write_body (some body) s = told send_request_body (write_all stream body) s

  abbrev converse : ℕ → HttpRequest → String → Step HttpResponse
  converse fuel request host_header =
      then_step (told send_request (write_all stream (as_bytes (wire_request request host_header))))
        (λ _. then_step (write_body request.body) (λ _.
          then_step (told flush_request (λ s. some (stream.flush s))) (λ _.
            then_step (told read_response (read_to_end fuel []))
              (λ response. λ s. some (parse_response lossy response, s)))))

  abbrev connected :
      ℕ
      → HttpRequest
      → String
      → Result S stream.Error
      → Option (Result HttpResponse (HttpTransportError stream.Error))
  connected fuel request host_header (err e) = some (err (connect e))
  connected fuel request host_header (ok s) =
      map_option (λ answer. answer.0) (converse fuel request host_header s)

  -- `net` connects to a target.
  unfoldable pub send :
      ℕ
      → (String → Result S stream.Error)
      → String
      → HttpRequest
      → Option (Result HttpResponse (HttpTransportError stream.Error))
  unfolding parse_endpoint wire_request write_all read_to_end parse_response as_bytes
  send fuel net endpoint request = elim (parse_endpoint endpoint) [
    | err e ↦ some (err e)
    | ok parsed ↦ connected fuel request parsed.host_header (net parsed.connect_target)
  ]
