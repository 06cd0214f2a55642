-- ===== src/Http/Meta/Reference.antt =====
-- The decoder of `HttpMeta` against an independent description: one lookup for each field.
use ferredge.Prelude.{
  ℕ, Result, ok, err, ltb, ap, ◌≡◌, refl, sym, ◌∙◌, true, false, String, str_eq, eq_iff, Option,
  none, List, [], ◌∷◌, ◌++◌, ◌>>=◌, ok_option, if◌then◌else◌, Bool-cases, Result-cases, inl, inr,
  subst,
}
use ferredge.Core.Protocol
use ferredge.Core.Meta.{MetaValue, Entries, TransportMeta}
use ferredge.Core.Meta.Fields.{field_at, contains, field_at_other, field_at_nil}
use ferredge.Http.Types.{
  HttpMeta, HttpCommandConversionError, invalid_extension_type, invalid_extension_value,
}
use ferredge.Http.Meta.{
  key_method, key_path, key_status_code, key_content_type, expect_str, expect_u64, status_of_u64,
  decode_entry, decode_entries, try_from_transport_meta, default,
}
use ferredge.Http.Meta.Entry.{
  assemble, status_value, reference_from, skip, continue, own_method, own_path, own_status,
  own_content_type,
}

-- A key that the view does not know changes no field.
unknown :
    (seen : List String) (view : HttpMeta) (key : String) (value : MetaValue) (entries : Entries)
    → str_eq key key_method ≡ false
    → str_eq key key_path ≡ false
    → str_eq key key_status_code ≡ false
    → str_eq key key_content_type ≡ false
    → continue seen view key value entries ≡ reference_from seen view ((key, value) ∷ entries)
unfolding decode_entry
unknown seen view key value entries m p s c =
    rw
      (
        m,
        p,
        s,
        c,
        field_at_other (expect_str key_method) seen entries key key_method value view.method m,
        field_at_other (expect_str key_path) seen entries key key_path value view.path p,
        field_at_other status_value seen entries key key_status_code value view.status_code s,
        field_at_other (expect_str key_content_type) seen entries key key_content_type value
            view.content_type c,
      )
      refl

step :
    (seen : List String) (view : HttpMeta) (key : String) (value : MetaValue) (entries : Entries)
    → contains seen key ≡ false
    → continue seen view key value entries ≡ reference_from seen view ((key, value) ∷ entries)
step seen view key value entries h = elim (Bool-cases (str_eq key key_method)) [
  | inl is ↦ known key_method is (own_method seen view value entries)
  | inr m ↦ elim (Bool-cases (str_eq key key_path)) [
    | inl is ↦ known key_path is (own_path seen view value entries)
    | inr p ↦ elim (Bool-cases (str_eq key key_status_code)) [
      | inl is ↦ known key_status_code is (own_status seen view value entries)
      | inr s ↦ elim (Bool-cases (str_eq key key_content_type)) [
        | inl is ↦ known key_content_type is (own_content_type seen view value entries)
        | inr c ↦ unknown seen view key value entries m p s c
      ]
    ]
  ]
]
  where
    Holds : String → Type 0
    Holds k =
        contains seen k ≡ false
        → continue seen view k value entries ≡ reference_from seen view ((k, value) ∷ entries)

    known :
        (k : String)
        → str_eq key k ≡ true
        → Holds k
        → continue seen view key value entries ≡ reference_from seen view ((key, value) ∷ entries)
    known k is own = subst Holds (sym ((eq_iff key _).0 is)) own h

module _ (seen : List String) (view : HttpMeta) (key : String) (value : MetaValue)
    (entries : Entries) where
  pub decode_entries_met :
      contains seen key ≡ true
      → decode_entries seen view ((key, value) ∷ entries) ≡ decode_entries seen view entries
  unfolding decode_entries
  decode_entries_met met = rw (met, decode_entries) refl

  pub decode_entries_new :
      contains seen key ≡ false
      → decode_entries seen view ((key, value) ∷ entries)
        ≡ (decode_entry view key value >>= λ view'. decode_entries (seen ++ key ∷ []) view' entries)
  unfolding decode_entries
  decode_entries_new new = rw (new, decode_entries) refl

decode_entries-reference_from :
    (entries : Entries) (seen : List String) (view : HttpMeta)
    → ok_option (decode_entries seen view entries) ≡ reference_from seen view entries
decode_entries-reference_from [] seen view =
    rw
      (
        field_at_nil (expect_str key_method) seen key_method view.method,
        field_at_nil (expect_str key_path) seen key_path view.path,
        field_at_nil status_value seen key_status_code view.status_code,
        field_at_nil (expect_str key_content_type) seen key_content_type view.content_type,
      )
      (unfold decode_entries in refl)
decode_entries-reference_from ((key, value) ∷ entries) seen view =
    elim (Bool-cases (contains seen key)) [
      | inl met ↦ rw (decode_entries_met seen view key value entries met) (
          decode_entries-reference_from entries seen view
          ∙ sym (skip seen view key value entries met))
      | inr new ↦
          rw
            (
              decode_entries_new seen view key value entries new,
              ← step seen view key value entries new,
            )
            (elim (Result-cases (decode_entry view key value)) [
              | inl (view', e) ↦
                  rw e (decode_entries-reference_from entries (seen ++ key ∷ []) view')
              | inr (x, e) ↦ rw e refl
            ])
    ]

-- Well-typed values: text, and a number that fits 16 bits.
abbrev pub text_or_none : String → MetaValue → Result String HttpCommandConversionError
text_or_none key (MetaValue.str text) = ok text
text_or_none key _ = err (invalid_extension_type key)

abbrev pub small_or_none : MetaValue → Result ℕ HttpCommandConversionError
small_or_none (MetaValue.u64 n) =
    if ltb n 65_536 then ok n else err (invalid_extension_value key_status_code n)
small_or_none _ = err (invalid_extension_type key_status_code)

text_is : (key : String) (value : MetaValue) → expect_str key value ≡ text_or_none key value
unfolding expect_str
text_is key (MetaValue.str text) = refl
text_is key (MetaValue.u64 _) = refl
text_is key (MetaValue.i64 _) = refl
text_is key (MetaValue.pairs _) = refl
text_is key (MetaValue.bool _) = refl
text_is key (MetaValue.bytes _) = refl
text_is key (MetaValue.u64_list _) = refl
text_is key (MetaValue.str_list _) = refl

small_is : (value : MetaValue) → status_value value ≡ small_or_none value
unfolding expect_u64 status_of_u64
small_is (MetaValue.str _) = refl
small_is (MetaValue.u64 n) = refl
small_is (MetaValue.bool _) = refl
small_is (MetaValue.i64 _) = refl
small_is (MetaValue.pairs _) = refl
small_is (MetaValue.bytes _) = refl
small_is (MetaValue.u64_list _) = refl
small_is (MetaValue.str_list _) = refl

-- Which captures are HTTP views, and what they hold, by one lookup for each field.
abbrev pub reference_of :
    (String → MetaValue → Result String HttpCommandConversionError)
    → (MetaValue → Result ℕ HttpCommandConversionError)
    → TransportMeta
    → Option HttpMeta
reference_of text small meta =
    if str_eq meta.protocol Protocol.http
    then assemble meta.headers (field_at (text key_method) [] meta.entries key_method none)
        (field_at (text key_path) [] meta.entries key_path none)
        (field_at small [] meta.entries key_status_code none)
        (field_at (text key_content_type) [] meta.entries key_content_type none)
    else none

abbrev pub reference : TransportMeta → Option HttpMeta
reference meta = reference_of text_or_none small_or_none meta

pub by_the_decoder :
    (meta : TransportMeta)
    → ok_option (try_from_transport_meta meta) ≡ reference_of expect_str status_value meta
unfolding try_from_transport_meta default
by_the_decoder meta = elim (Bool-cases (str_eq meta.protocol Protocol.http)) [
  | inl is ↦ rw is (decode_entries-reference_from meta.entries [] _)
  | inr differs ↦ rw differs refl
]

-- The decoder accepts exactly the captures of protocol `http` in which the first entry under each
-- known key is well typed (and the status fits 16 bits), and each field of the view is that first
-- entry; unknown keys and later duplicates count for nothing, whatever they hold.
pub try_from-reference :
    (meta : TransportMeta) → ok_option (try_from_transport_meta meta) ≡ reference meta
try_from-reference meta =
    by_the_decoder meta
    ∙ ap (λ text. reference_of text status_value meta) (λ i key value. text_is key value i)
    ∙ ap (λ small. reference_of text_or_none small meta) (λ i value. small_is value i)
