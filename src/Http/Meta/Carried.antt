-- ===== src/Http/Meta/Carried.antt =====
-- The capture's headers pass through the decoder of `HttpMeta` untouched and unread.
use ferredge.Prelude.{
  ◌≡◌, refl, ap, String, Option, List, [], ◌∷◌, ◌++◌, ok, map_ok, Result-cases, Bool-cases, inl,
  inr, arith, str_eq,
}
use ferredge.Core.Protocol
use ferredge.Core.Headers.{Headers}
use ferredge.Core.Meta.{MetaValue, Entries, TransportMeta}
use ferredge.Core.Meta.Fields.{contains}
use ferredge.Http.Types.{HttpMeta}
use ferredge.Http.Meta.{decode_entry, decode_entries, try_from_transport_meta}
use ferredge.Http.Meta.Reference.{decode_entries_met, decode_entries_new}

abbrev pub with_headers : Option Headers → HttpMeta → HttpMeta
with_headers headers view = record view { headers = headers }

module _ (headers : Option Headers) where
  decode_entry-with_headers :
      (view : HttpMeta) (key : String) (value : MetaValue)
      → decode_entry (with_headers headers view) key value
        ≡ map_ok (with_headers headers) (decode_entry view key value)
  unfolding decode_entry
  decode_entry-with_headers view key value = ground arith

  decode_entries-with_headers :
      (entries : Entries) (seen : List String) (view : HttpMeta)
      → decode_entries seen (with_headers headers view) entries
        ≡ map_ok (with_headers headers) (decode_entries seen view entries)
  decode_entries-with_headers [] seen view = unfold decode_entries in refl
  decode_entries-with_headers ((key, value) ∷ entries) seen view =
      elim (Bool-cases (contains seen key)) [
        | inl met ↦
            rw
              (
                decode_entries_met seen (with_headers headers view) key value entries met,
                decode_entries_met seen view key value entries met,
              )
              (decode_entries-with_headers entries seen view)
        | inr new ↦
            rw
              (
                decode_entries_new seen (with_headers headers view) key value entries new,
                decode_entries_new seen view key value entries new,
                decode_entry-with_headers view key value,
              )
              (elim (Result-cases (decode_entry view key value)) [
                | inl (view', e) ↦
                    rw e (decode_entries-with_headers entries (seen ++ key ∷ []) view')
                | inr (x, e) ↦ rw e refl
              ])
      ]

  pub try_from-with_headers :
      (meta : TransportMeta)
      → try_from_transport_meta (record meta { headers = headers })
        ≡ map_ok (with_headers headers) (try_from_transport_meta meta)
  unfolding try_from_transport_meta
  try_from-with_headers meta = elim (Bool-cases (str_eq meta.protocol Protocol.http)) [
    | inl is ↦ rw is (decode_entries-with_headers meta.entries [] _)
    | inr differs ↦ rw differs refl
  ]

pub try_from-headers :
    (meta : TransportMeta) (view : HttpMeta)
    → try_from_transport_meta meta ≡ ok view
    → view.headers ≡ meta.headers
try_from-headers meta view e =
    cc (try_from-with_headers meta.headers meta, ap (map_ok (with_headers meta.headers)) e)
