-- ===== src/Mqtt/Meta/Carried.antt =====
-- The capture's headers pass through the decoder of `MqttMeta` untouched and unread.
use ferredge.Prelude.{
  ◌≡◌, refl, ap, String, Option, List, [], ◌∷◌, ◌++◌, Result, ok, err, map_ok, ◌>>=◌, Result-cases,
  Bool-cases, Option-cases, inl, inr, str_eq, true, false,
}
use ferredge.Core.Protocol
use ferredge.Core.Headers.{Headers}
use ferredge.Core.Meta.{MetaValue, Entries, TransportMeta}
use ferredge.Core.Meta.Fields.{contains}
use ferredge.Mqtt.Types.{MqttMeta}
use ferredge.Mqtt.Capture.{
  Key, key_of, expect_str, expect_uint, expect_bool, expect_bytes, expect_str_list,
  expect_payload_format, expect_identifiers, expect_retain_handling,
}
use ferredge.Mqtt.Meta.{
  decode_known, decode_entry, decode_entries, try_from_transport_meta, default,
}

pub decode_entries_met :
    (seen : List String) (view : MqttMeta) (key : String) (value : MetaValue) (entries : Entries)
    → contains seen key ≡ true
    → decode_entries seen view ((key, value) ∷ entries) ≡ decode_entries seen view entries
unfolding decode_entries
decode_entries_met seen view key value entries h = rw (h, decode_entries) refl

pub decode_entries_new :
    (seen : List String) (view : MqttMeta) (key : String) (value : MetaValue) (entries : Entries)
    → contains seen key ≡ false
    → decode_entries seen view ((key, value) ∷ entries)
      ≡ (decode_entry view key value >>= λ view'. decode_entries (seen ++ key ∷ []) view' entries)
unfolding decode_entries
decode_entries_new seen view key value entries h = rw (h, decode_entries) refl

map_ok-map_ok :
    {A B C E : Type 0} (f : A → B) (g : B → C) (r : Result A E)
    → map_ok (λ a. g (f a)) r ≡ map_ok g (map_ok f r)
map_ok-map_ok f g (ok a) = refl
map_ok-map_ok f g (err e) = refl

abbrev pub with_headers : Option Headers → MqttMeta → MqttMeta
with_headers headers view = record view { headers = headers }

module _ (headers : Option Headers) where
  decode_known-with_headers :
      (view : MqttMeta) (key : Key) (value : MetaValue)
      → decode_known (with_headers headers view) key value
        ≡ map_ok (with_headers headers) (decode_known view key value)
  unfolding decode_known
  decode_known-with_headers view Key.topic value = map_ok-map_ok _ _ (expect_str Key.topic value)
  decode_known-with_headers view Key.qos value = map_ok-map_ok _ _ (expect_uint 8 Key.qos value)
  decode_known-with_headers view Key.retain value = map_ok-map_ok _ _ (expect_bool Key.retain value)
  decode_known-with_headers view Key.duplicate value =
      map_ok-map_ok _ _ (expect_bool Key.duplicate value)
  decode_known-with_headers view Key.packet_id value =
      map_ok-map_ok _ _ (expect_uint 16 Key.packet_id value)
  decode_known-with_headers view Key.content_type value =
      map_ok-map_ok _ _ (expect_str Key.content_type value)
  decode_known-with_headers view Key.payload_format value =
      map_ok-map_ok _ _ (expect_payload_format value)
  decode_known-with_headers view Key.message_expiry_interval_secs value =
      map_ok-map_ok _ _ (expect_uint 32 Key.message_expiry_interval_secs value)
  decode_known-with_headers view Key.response_topic value =
      map_ok-map_ok _ _ (expect_str Key.response_topic value)
  decode_known-with_headers view Key.correlation_data value =
      map_ok-map_ok _ _ (expect_bytes Key.correlation_data value)
  decode_known-with_headers view Key.topic_alias value =
      map_ok-map_ok _ _ (expect_uint 16 Key.topic_alias value)
  decode_known-with_headers view Key.subscription_identifiers value =
      map_ok-map_ok _ _ (expect_identifiers value)
  decode_known-with_headers view Key.reason_codes value =
      map_ok-map_ok _ _ (expect_str_list Key.reason_codes value)
  decode_known-with_headers view Key.reason_string value =
      map_ok-map_ok _ _ (expect_str Key.reason_string value)
  decode_known-with_headers view Key.durable_name value =
      map_ok-map_ok _ _ (expect_str Key.durable_name value)
  decode_known-with_headers view Key.shared_group value =
      map_ok-map_ok _ _ (expect_str Key.shared_group value)
  decode_known-with_headers view Key.no_local value =
      map_ok-map_ok _ _ (expect_bool Key.no_local value)
  decode_known-with_headers view Key.retain_as_published value =
      map_ok-map_ok _ _ (expect_bool Key.retain_as_published value)
  decode_known-with_headers view Key.retain_handling value =
      map_ok-map_ok _ _ (expect_retain_handling value)

  decode_entry-with_headers :
      (view : MqttMeta) (key : String) (value : MetaValue)
      → decode_entry (with_headers headers view) key value
        ≡ map_ok (with_headers headers) (decode_entry view key value)
  unfolding decode_entry
  decode_entry-with_headers view key value = elim (Option-cases (key_of key)) [
    | inl e ↦ rw (e, decode_entry) refl
    | inr (known, e) ↦ rw (e, decode_entry) (decode_known-with_headers view known value)
  ]

  decode_entries-with_headers :
      (entries : Entries) (seen : List String) (view : MqttMeta)
      → decode_entries seen (with_headers headers view) entries
        ≡ map_ok (with_headers headers) (decode_entries seen view entries)
  decode_entries-with_headers [] seen view = unfold decode_entries in refl
  decode_entries-with_headers ((key, value) ∷ entries) seen view =
      elim (Bool-cases (contains seen key)) [
        | inl met ↦
            rw
              (
                decode_entries_met seen (with_headers headers view) key value entries met,
                decode_entries_met seen view key value entries met,
              )
              (decode_entries-with_headers entries seen view)
        | inr new ↦
            rw
              (
                decode_entries_new seen (with_headers headers view) key value entries new,
                decode_entries_new seen view key value entries new,
                decode_entry-with_headers view key value,
              )
              (elim (Result-cases (decode_entry view key value)) [
                | inl (view', e) ↦
                    rw e (decode_entries-with_headers entries (seen ++ key ∷ []) view')
                | inr (x, e) ↦ rw e refl
              ])
      ]

  pub try_from-with_headers :
      (meta : TransportMeta)
      → try_from_transport_meta (record meta { headers = headers })
        ≡ map_ok (with_headers headers) (try_from_transport_meta meta)
  unfolding try_from_transport_meta
  try_from-with_headers meta = elim (Bool-cases (str_eq meta.protocol Protocol.mqtt)) [
    | inl is ↦
        rw is
          (decode_entries-with_headers meta.entries [] (record default { headers = meta.headers }))
    | inr differs ↦ rw differs refl
  ]

pub try_from-headers :
    (meta : TransportMeta) (view : MqttMeta)
    → try_from_transport_meta meta ≡ ok view
    → view.headers ≡ meta.headers
try_from-headers meta view e =
    cc (try_from-with_headers meta.headers meta, ap (map_ok (with_headers meta.headers)) e)
