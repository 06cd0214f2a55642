-- ===== src/Mqtt/Meta/RoundTrip.antt =====
-- `MqttMeta` survives the way into a capture and back.
use ferredge.Prelude.{
  inr, inl, Result-cases, ◌≡◌, refl, sym, ap, ◌∙◌, false, String, none, some, List, [], ◌∷◌, ◌++◌,
  append-nil, append_assoc, Result, ok, ◌>>=◌, ok_option,
}
use ferredge.Core.Protocol
use ferredge.Core.Meta
use ferredge.Core.Meta.{MetaValue, Entries, TransportMeta, set_entry}
use ferredge.Core.Meta.Laws.{as_borrowed_id}
use ferredge.Core.Meta.Fields.{
  contains, contains-push, or_is_false, keys_of, keys_of-push, set_entry_new,
}
use ferredge.Mqtt.Types.{MqttMeta, MqttCommandConversionError}
use ferredge.Mqtt.Capture.{Key, key_text, all_keys}
use ferredge.Mqtt.Meta.{
  decode_known, decode_entry, decode_entries, try_from_transport_meta, from_transport_meta, view,
  default,
}
use ferredge.Mqtt.Meta.Into.{Fields, set_fields, fields_of, into_transport_meta}
use ferredge.Mqtt.Meta.Field.{
  IsSized, IsBlank, value_of, take_field, key_of-key_text, decode_field, decode_field-take_field,
}
use ferredge.Mqtt.Meta.Carried.{decode_entries_new}

abbrev present : Fields → Entries
present [] = []
present ((key, none) ∷ fields) = present fields
present ((key, some value) ∷ fields) = (key_text key, value) ∷ present fields

-- No key was met before, and none occurs twice.
abbrev AreFresh : List String → Fields → Type 0
AreFresh seen [] = Unit
AreFresh seen ((key, value) ∷ fields) =
    (contains seen (key_text key) ≡ false) × AreFresh (seen ++ key_text key ∷ []) fields

fresh_of_more :
    (fields : Fields) (seen more : List String)
    → ((key : String) → contains more key ≡ false → contains seen key ≡ false)
    → AreFresh more fields
    → AreFresh seen fields
fresh_of_more [] seen more h f = tt
fresh_of_more ((key, value) ∷ fields) seen more h (f, fs) = (
  h (key_text key) f,
  fresh_of_more fields (seen ++ key_text key ∷ []) (more ++ key_text key ∷ [])
      (λ other e.
        let parts = or_is_false _ _ (sym (contains-push more (key_text key) other) ∙ e) in
        contains-push seen (key_text key) other ∙ rw (h other parts.0, parts.1) refl)
      fs,
)

fresh_of_push :
    (fields : Fields) (seen : List String) (key : String)
    → AreFresh (seen ++ key ∷ []) fields
    → AreFresh seen fields
fresh_of_push fields seen key f =
    fresh_of_more fields seen (seen ++ key ∷ [])
      (λ other e. (or_is_false _ _ (sym (contains-push seen key other) ∙ e)).0) f

-- Decoding field by field.
decode_fields : MqttMeta → Fields → Result MqttMeta MqttCommandConversionError
decode_fields view [] = ok view
decode_fields view ((key, value) ∷ fields) =
    decode_field view key value >>= λ view'. decode_fields view' fields

decode_entry-key_text :
    (view : MqttMeta) (key : Key) (value : MetaValue)
    → decode_entry view (key_text key) value ≡ decode_known view key value
unfolding decode_entry decode_known
decode_entry-key_text view key value = rw (key_of-key_text key, decode_entry) refl

decode_entries-present :
    (fields : Fields) (seen : List String) (view : MqttMeta)
    → AreFresh seen fields
    → decode_entries seen view (present fields) ≡ decode_fields view fields
unfolding decode_fields
decode_entries-present [] seen view f = unfold decode_entries in refl
decode_entries-present ((key, none) ∷ fields) seen view (f, fs) =
    decode_entries-present fields seen view (fresh_of_push fields seen (key_text key) fs)
decode_entries-present ((key, some value) ∷ fields) seen view (f, fs) =
    decode_entries_new seen view (key_text key) value (present fields) f
    ∙ rw (decode_entry-key_text view key value) (elim (Result-cases (decode_known view key value)) [
      | inl (view', e) ↦ rw e (decode_entries-present fields (seen ++ key_text key ∷ []) view' fs)
      | inr (x, e) ↦ rw e refl
    ])

set_fields-entries :
    (fields : Fields) (meta : TransportMeta)
    → AreFresh (keys_of meta.entries) fields
    → (set_fields fields meta).entries ≡ meta.entries ++ present fields
unfolding set_fields Meta.set
set_fields-entries [] meta f = sym (append-nil meta.entries)
set_fields-entries ((key, none) ∷ fields) meta (f, fs) =
    set_fields-entries fields meta (fresh_of_push fields (keys_of meta.entries) (key_text key) fs)
set_fields-entries ((key, some value) ∷ fields) meta (f, fs) =
    let grown = set_entry_new meta.entries (key_text key) value f in
    set_fields-entries fields (Meta.set meta (key_text key) value)
      (rw (grown, keys_of-push meta.entries (key_text key) value) fs)
    ∙ rw grown (append_assoc meta.entries ((key_text key, value) ∷ []) (present fields))

set_fields-protocol :
    (fields : Fields) (meta : TransportMeta) → (set_fields fields meta).protocol ≡ meta.protocol
unfolding set_fields Meta.set
set_fields-protocol [] meta = refl
set_fields-protocol ((key, none) ∷ fields) meta = set_fields-protocol fields meta
set_fields-protocol ((key, some value) ∷ fields) meta =
    set_fields-protocol fields (Meta.set meta (key_text key) value)

-- The fields named by a list of keys, taken one after another.
abbrev values_of : MqttMeta → List Key → Fields
values_of m [] = []
values_of m (key ∷ keys) = (key, value_of m key) ∷ values_of m keys

abbrev take_fields : MqttMeta → MqttMeta → List Key → MqttMeta
take_fields m view [] = view
take_fields m view (key ∷ keys) = take_fields m (take_field m view key) keys

abbrev AreBlank : MqttMeta → MqttMeta → List Key → Type 0
AreBlank m view [] = Unit {0}
AreBlank m view (key ∷ keys) = IsBlank view key × AreBlank m (take_field m view key) keys

decode_fields-values_of :
    (keys : List Key) (m view : MqttMeta)
    → IsSized m
    → AreBlank m view keys
    → decode_fields view (values_of m keys) ≡ ok (take_fields m view keys)
unfolding decode_fields
decode_fields-values_of [] m view s b = refl
decode_fields-values_of (key ∷ keys) m view s (b, bs) =
    rw (decode_field-take_field m view key s b)
      (decode_fields-values_of keys m (take_field m view key) s bs)

fields_fresh : (m : MqttMeta) → AreFresh [] (fields_of m)
unfolding contains
fields_fresh m = search tt

blanks : (m : MqttMeta) → AreBlank m (record default { headers = m.headers }) all_keys
unfolding default
blanks m = search tt

decoded : (m : MqttMeta) → IsSized m → try_from_transport_meta (into_transport_meta m) ≡ ok m
unfolding try_from_transport_meta into_transport_meta Meta.new
decoded m s =
    rw
      (
        set_fields-protocol (fields_of m) (Meta.new Protocol.mqtt),
        set_fields-entries (fields_of m) (Meta.new Protocol.mqtt) (fields_fresh m),
        decode_entries-present (fields_of m) [] (record default { headers = m.headers })
            (fields_fresh m),
      )
      (decode_fields-values_of all_keys m (record default { headers = m.headers }) s (blanks m))

-- Encoding a view as a capture and decoding that capture gives the view back, on the fallible path
-- and on the `Option` paths, by move and by borrow, for every view whose numbers fit their types.
pub try_from-into_transport_meta :
    (m : MqttMeta)
    → IsSized m
    → (try_from_transport_meta (into_transport_meta m) ≡ ok m)
      × (from_transport_meta (into_transport_meta m) ≡ some m)
      × (view (into_transport_meta m) ≡ some m)
unfolding from_transport_meta view
try_from-into_transport_meta m s =
    let back = decoded m s in
    (
      back,
      ap ok_option back,
      ap from_transport_meta (as_borrowed_id (into_transport_meta m)) ∙ ap ok_option back,
    )
