-- ===== src/Http/Meta.antt =====
-- crates/ferredge-proto-http/src/meta.rs: `HttpMeta` to and from a transport capture.
pub mod RoundTrip
pub mod Entry
pub mod Reference
pub mod Carried
use ferredge.Prelude.{
  ℕ, Bool, true, false, String, str_eq, Option, none, some, List, [], ◌∷◌, ◌++◌, Result, ok, err,
  ◌>>=◌, map_ok, ok_option, ltb, ◌^◌, if◌then◌else◌,
}
use ferredge.Core.Protocol
use ferredge.Core.Headers.{Headers}
use ferredge.Core.Meta
use ferredge.Core.Meta.Fields.{contains}
use ferredge.Core.Meta.{MetaValue, Entries, TransportMeta}
use ferredge.Http.Types.{
  HttpMeta, HttpCommandConversionError, foreign_extensions, invalid_extension_value,
  invalid_extension_type,
}

abbrev pub key_method : String
key_method = "method"

abbrev pub key_path : String
key_path = "path"

abbrev pub key_status_code : String
key_status_code = "status-code"

abbrev pub key_content_type : String
key_content_type = "content-type"

unfoldable pub expect_str : String → MetaValue → Result String HttpCommandConversionError
expect_str key (MetaValue.str value) = ok value
expect_str key _ = err (invalid_extension_type key)

unfoldable pub expect_u64 : String → MetaValue → Result ℕ HttpCommandConversionError
expect_u64 key (MetaValue.u64 value) = ok value
expect_u64 key _ = err (invalid_extension_type key)

-- `u16::try_from(value)` with the source's error.
unfoldable pub status_of_u64 : ℕ → Result ℕ HttpCommandConversionError
status_of_u64 value =
    if ltb value (2 ^ 16) then ok value else err (invalid_extension_value key_status_code value)

unfoldable pub default : HttpMeta
default = record {
  method = none;
  path = none;
  status_code = none;
  content_type = none;
  headers = none;
}

-- One arm of the `match key.as_ref()`.
unfoldable pub decode_entry :
    HttpMeta → String → MetaValue → Result HttpMeta HttpCommandConversionError
unfolding expect_str expect_u64 status_of_u64
decode_entry view key value =
    if str_eq key key_method
    then map_ok (λ v. record view { method = some v }) (expect_str key_method value)
    else if str_eq key key_path
    then map_ok (λ v. record view { path = some v }) (expect_str key_path value)
    else if str_eq key key_status_code
    then map_ok (λ v. record view { status_code = some v })
        (expect_u64 key_status_code value >>= status_of_u64)
    else if str_eq key key_content_type
    then map_ok (λ v. record view { content_type = some v }) (expect_str key_content_type value)
    else ok view

-- The loop over the entries: a key met before is skipped.
unfoldable pub decode_entries :
    List String → HttpMeta → Entries → Result HttpMeta HttpCommandConversionError
unfolding contains decode_entry
decode_entries seen view [] = ok view
decode_entries seen view ((key, value) ∷ entries) = elim (contains seen key) [
  | true ↦ decode_entries seen view entries
  | false ↦ decode_entry view key value >>= λ view'. decode_entries (seen ++ key ∷ []) view' entries
]

unfoldable pub try_from_transport_meta : TransportMeta → Result HttpMeta HttpCommandConversionError
unfolding decode_entries default
try_from_transport_meta meta =
    if str_eq meta.protocol Protocol.http
    then decode_entries [] (record default { headers = meta.headers }) meta.entries
    else err (foreign_extensions meta.protocol)

-- `if let Some(v) = field { meta.set(key, …) }`
unfoldable pub set_some {ℓ} :
    {A : Type ℓ} → (A → MetaValue) → String → Option A → TransportMeta → TransportMeta
unfolding Meta.set
set_some wrap key none meta = meta
set_some wrap key (some value) meta = Meta.set meta key (wrap value)

unfoldable pub into_transport_meta : HttpMeta → TransportMeta
unfolding set_some Meta.new
into_transport_meta view =
    let meta = set_some MetaValue.str key_method view.method (Meta.new Protocol.http) in
    let meta' = set_some MetaValue.str key_path view.path meta in
    let meta'' = set_some MetaValue.u64 key_status_code view.status_code meta' in
    let meta''' = set_some MetaValue.str key_content_type view.content_type meta'' in
    record meta''' { headers = view.headers }

unfoldable pub from_transport_meta : TransportMeta → Option HttpMeta
unfolding try_from_transport_meta
from_transport_meta meta = ok_option (try_from_transport_meta meta)

unfoldable pub view : TransportMeta → Option HttpMeta
unfolding try_from_transport_meta Meta.as_borrowed
view meta = ok_option (try_from_transport_meta (Meta.as_borrowed meta))
