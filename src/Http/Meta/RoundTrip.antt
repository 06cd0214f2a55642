-- ===== src/Http/Meta/RoundTrip.antt =====
-- `HttpMeta` survives the way into a capture and back.
use ferredge.Prelude.{
  ℕ, ◌≡◌, refl, ◌<◌, ◌^◌, Option, none, some, ok, err, Result, ok_option, arith, lt→ltb, String, ap,
  ◌∙◌, str_eq, lookup, map_option, ◌or◌, if◌then◌else◌,
}
use ferredge.Core.Meta
use ferredge.Core.Meta.{MetaValue, TransportMeta}
use ferredge.Core.Meta.Laws.{as_borrowed_id, get-set}
use ferredge.Core.Meta.Fields.{contains}
use ferredge.Http.Types.{HttpMeta, HttpCommandConversionError}
use ferredge.Http.Meta.{
  try_from_transport_meta, into_transport_meta, from_transport_meta, view, set_some, key_method,
  key_path, default, key_content_type, expect_str, expect_u64, status_of_u64,
}
use ferredge.Http.Meta.Entry.{assemble, status_value}
use ferredge.Http.Meta.Reference.{reference_of, by_the_decoder}

-- A status code that its field, a `u16`, can hold.
abbrev pub IsStatus : HttpMeta → Type 0
IsStatus m = (n : ℕ) → m.status_code ≡ some n → n < 2 ^ 16

module _ {A : Type 0} (wrap : A → MetaValue) (key : String) where
  protocol-set_some :
      (value : Option A) (meta : TransportMeta)
      → (set_some wrap key value meta).protocol ≡ meta.protocol
  unfolding set_some
  protocol-set_some none meta = refl
  protocol-set_some (some v) meta = refl

  lookup-set_some :
      (value : Option A) (meta : TransportMeta) (other : String)
      → lookup other (set_some wrap key value meta).entries ≡ (
          if str_eq key other
          then map_option wrap value or lookup other meta.entries
          else lookup other meta.entries)
  unfolding Meta.get
  lookup-set_some none meta other = unfold set_some in ground arith
  lookup-set_some (some v) meta other = unfold set_some in get-set meta key other (wrap v)

abbrev read_back :
    {A : Type 0}
    → (MetaValue → Result A HttpCommandConversionError)
    → Option MetaValue
    → Option (Option A)
read_back decode none = some none
read_back decode (some value) = map_option some (ok_option (decode value))

text_field :
    (key : String) (value : Option String)
    → read_back (expect_str key) (map_option MetaValue.str value or none) ≡ some value
text_field key none = refl
text_field key (some v) = unfold expect_str in refl

status_field :
    (value : Option ℕ)
    → ((n : ℕ) → value ≡ some n → n < 2 ^ 16)
    → read_back status_value (map_option MetaValue.u64 value or none) ≡ some value
status_field none h = refl
status_field (some n) h = unfold expect_u64 status_of_u64 in rw (lt→ltb n (2 ^ 16) (h n refl)) refl

reference-into :
    (view : HttpMeta)
    → IsStatus view
    → reference_of expect_str status_value (into_transport_meta view) ≡ some view
unfolding into_transport_meta Meta.new default contains lookup
reference-into view h =
    simp (protocol-set_some, lookup-set_some)
      (λ i.
        assemble view.headers (text_field key_method view.method i)
          (text_field key_path view.path i) (status_field view.status_code h i)
          (text_field key_content_type view.content_type i))

ok_of_option : {A E : Type 0} (r : Result A E) {a : A} → ok_option r ≡ some a → r ≡ ok a
ok_of_option (ok a) e = cc
ok_of_option (err x) e = cc

-- Encoding a view as a capture and decoding that capture gives the view back, on the fallible path
-- and on the `Option` paths, by move and by borrow, for every status code of 16 bits.
pub try_from-into :
    (m : HttpMeta)
    → IsStatus m
    → (try_from_transport_meta (into_transport_meta m) ≡ ok m)
      × (from_transport_meta (into_transport_meta m) ≡ some m)
      × (view (into_transport_meta m) ≡ some m)
unfolding from_transport_meta view
try_from-into m h =
    let back = ok_of_option _ (by_the_decoder (into_transport_meta m) ∙ reference-into m h) in
    (
      back,
      ap ok_option back,
      ap from_transport_meta (as_borrowed_id (into_transport_meta m)) ∙ ap ok_option back,
    )
