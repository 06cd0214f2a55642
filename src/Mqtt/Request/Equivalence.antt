-- ===== src/Mqtt/Request/Equivalence.antt =====
-- The direct path and the path through the bridge representation build the same packet.
use ferredge.Prelude.{
  ◌⊎◌, ◌≡◌, refl, sym, ap, ◌∙◌, String, not, Option, none, some, List, [], ◌∷◌, map, Result, ok,
  err, ◌>>=◌, map_ok, Result-cases, inl, inr, append-nil, filter_option, then_some, ℕ,
}
use ferredge.Core.Headers
use ferredge.Core.Headers.{Headers}
use ferredge.Core.Meta.{TransportMeta, as_borrowed}
use ferredge.Core.Meta.Laws.{as_borrowed_id}
use ferredge.Core.Payload.{PayloadValue}
use ferredge.Core.Command.{
  Intent, Command, BrokerChannelKind, BrokerMessageOptions, BrokerSubscriptionOptions,
}
use ferredge.Bridge.Planner.{capture_with_headers, merge_capture}
use ferredge.Mqtt.Package.{MqttCore}
use ferredge.Mqtt.Types.{MqttDevice, MqttMeta, MqttCommandConversionError, unsupported_channel_kind}
use ferredge.Mqtt.Meta as MqttMeta
use ferredge.Mqtt.Meta.Carried.{with_headers, try_from-with_headers, try_from-headers}
use ferredge.Mqtt.Plan.{split_mqtt_extensions, merged_user_properties, header_pair}
use ferredge.Mqtt.View.{mqtt_capture_view, header_user_properties}
use ferredge.Mqtt.Request.{native_packet_request, bridge_packet_request}

-- The envelope's headers, projected, are the properties that the native plan merges.
projected_headers :
    (hs : Headers)
    → header_user_properties (then_some (not (Headers.is_empty hs)) hs) ≡ map header_pair hs
unfolding Headers.is_empty header_user_properties
projected_headers [] = refl
projected_headers (h ∷ hs) = refl

merged_headers :
    (headers : Headers) (captured : Option Headers)
    → map header_pair
        (merge_capture headers (filter_option (λ hs. not (Headers.is_empty hs)) captured))
      ≡ merged_user_properties headers captured
unfolding Headers.is_empty Headers.merge merged_user_properties
merged_headers headers none = refl
merged_headers headers (some []) = ap (map header_pair) (sym (append-nil headers))
merged_headers headers (some (h ∷ hs)) = refl

-- What the view is made from: the options' capture on one side, the stripped one on the other.
abbrev Same : Headers → Option TransportMeta → Type 0
Same headers extensions =
    ((error : MqttCommandConversionError) × (split_mqtt_extensions extensions ≡ err error)
      × (mqtt_capture_view (capture_with_headers extensions headers).0 ≡ err error))
    ⊎ ((view : MqttMeta) × (split_mqtt_extensions extensions ≡ ok view)
        × (mqtt_capture_view (capture_with_headers extensions headers).0
            ≡ ok (with_headers none view))
        × (header_user_properties (capture_with_headers extensions headers).1
            ≡ merged_user_properties headers view.headers))

stripped :
    (meta : TransportMeta)
    → MqttMeta.try_from_transport_meta (as_borrowed (record meta { headers = none }))
      ≡ map_ok (with_headers none) (MqttMeta.try_from_transport_meta meta)
stripped meta =
    ap MqttMeta.try_from_transport_meta (as_borrowed_id (record meta { headers = none }))
    ∙ try_from-with_headers none meta

captures_agree : (headers : Headers) (extensions : Option TransportMeta) → Same headers extensions
unfolding split_mqtt_extensions mqtt_capture_view capture_with_headers
captures_agree headers none = inr (
  MqttMeta.default,
  refl,
  unfold MqttMeta.default in refl,
  projected_headers headers ∙ unfold merged_user_properties MqttMeta.default in refl,
)
captures_agree headers (some meta) = elim (Result-cases (MqttMeta.try_from_transport_meta meta)) [
  | inr (x, e) ↦ inl (x, e, stripped meta ∙ ap (map_ok (with_headers none)) e)
  | inl (view, e) ↦ inr (
    view,
    e,
    stripped meta ∙ ap (map_ok (with_headers none)) e,
    projected_headers _
        ∙ merged_headers headers meta.headers
        ∙ ap (merged_user_properties headers) (sym (try_from-headers meta view e)),
  )
]

abbrev with_intent : Command → Intent → Command
with_intent command intent = record command { intent = intent }

module _ (core : MqttCore) (json : PayloadValue → Result (List ℕ) String) (device : MqttDevice)
    (command : Command) where
  abbrev Agreed : Intent → Type 0
  Agreed intent =
      native_packet_request core json device (with_intent command intent)
      ≡ bridge_packet_request core json device (with_intent command intent)

  -- A kind of channel that is no topic: the bridge path refuses it first, the direct path after the
  -- capture.
  abbrev Refused : Intent → Option TransportMeta → BrokerChannelKind → Type 0
  Refused intent extensions kind =
      (bridge_packet_request core json device (with_intent command intent)
        ≡ err (unsupported_channel_kind kind))
      × (native_packet_request core json device (with_intent command intent)
          ≡ (split_mqtt_extensions extensions >>= λ _. err (unsupported_channel_kind kind)))

  abbrev pub AgreeOn : Intent → Option TransportMeta → Option BrokerChannelKind → Type 0
  AgreeOn intent extensions none = Agreed intent
  AgreeOn intent extensions (some BrokerChannelKind.topic) = Agreed intent
  AgreeOn intent extensions (some kind) = Refused intent extensions kind

  abbrev pub Agree : Intent → Type 0
  Agree (Intent.send channel payload options) =
      AgreeOn (Intent.send channel payload options) options.extensions channel.kind
  Agree (Intent.subscribe channel options) =
      AgreeOn (Intent.subscribe channel options) options.extensions channel.kind
  Agree intent = Agreed intent

  module _ (name : String) (payload : PayloadValue) (options : BrokerMessageOptions) where
    abbrev sent : Option BrokerChannelKind → Intent
    sent kind = Intent.send (record { name = name; kind = kind }) payload options

    send_agrees : (kind : Option BrokerChannelKind) → AgreeOn (sent kind) options.extensions kind
    unfolding native_packet_request bridge_packet_request
    send_agrees none = elim (captures_agree options.headers options.extensions) [
      | inl (x, e, f) ↦ rw (e, f) refl
      | inr (view, e, f, g) ↦ rw (e, f, g) refl
    ]
    send_agrees (some BrokerChannelKind.topic) =
        elim (captures_agree options.headers options.extensions) [
          | inl (x, e, f) ↦ rw (e, f) refl
          | inr (view, e, f, g) ↦ rw (e, f, g) refl
        ]
    send_agrees (some BrokerChannelKind.queue) = (
      refl,
      elim (Result-cases (split_mqtt_extensions options.extensions)) [
        | inl (view, e) ↦ rw e refl
        | inr (x, e) ↦ rw e refl
      ],
    )
    send_agrees (some BrokerChannelKind.subject) = (
      refl,
      elim (Result-cases (split_mqtt_extensions options.extensions)) [
        | inl (view, e) ↦ rw e refl
        | inr (x, e) ↦ rw e refl
      ],
    )
    send_agrees (some BrokerChannelKind.stream) = (
      refl,
      elim (Result-cases (split_mqtt_extensions options.extensions)) [
        | inl (view, e) ↦ rw e refl
        | inr (x, e) ↦ rw e refl
      ],
    )

  module _ (name : String) (options : BrokerSubscriptionOptions) where
    abbrev subscribed : Option BrokerChannelKind → Intent
    subscribed kind = Intent.subscribe (record { name = name; kind = kind }) options

    subscribe_agrees :
        (kind : Option BrokerChannelKind) → AgreeOn (subscribed kind) options.extensions kind
    unfolding native_packet_request bridge_packet_request
    subscribe_agrees none = elim (captures_agree [] options.extensions) [
      | inl (x, e, f) ↦ rw (e, f) refl
      | inr (view, e, f, g) ↦ rw (e, f, g) refl
    ]
    subscribe_agrees (some BrokerChannelKind.topic) = elim (captures_agree [] options.extensions) [
      | inl (x, e, f) ↦ rw (e, f) refl
      | inr (view, e, f, g) ↦ rw (e, f, g) refl
    ]
    subscribe_agrees (some BrokerChannelKind.queue) = (
      refl,
      elim (Result-cases (split_mqtt_extensions options.extensions)) [
        | inl (view, e) ↦ rw e refl
        | inr (x, e) ↦ rw e refl
      ],
    )
    subscribe_agrees (some BrokerChannelKind.subject) = (
      refl,
      elim (Result-cases (split_mqtt_extensions options.extensions)) [
        | inl (view, e) ↦ rw e refl
        | inr (x, e) ↦ rw e refl
      ],
    )
    subscribe_agrees (some BrokerChannelKind.stream) = (
      refl,
      elim (Result-cases (split_mqtt_extensions options.extensions)) [
        | inl (view, e) ↦ rw e refl
        | inr (x, e) ↦ rw e refl
      ],
    )

  unsubscribe_agrees :
      (name : String) (kind : Option BrokerChannelKind)
      → Agreed (Intent.unsubscribe (record { name = name; kind = kind }))
  unfolding native_packet_request bridge_packet_request
  unsubscribe_agrees name none = refl
  unsubscribe_agrees name (some BrokerChannelKind.topic) = refl
  unsubscribe_agrees name (some BrokerChannelKind.queue) = refl
  unsubscribe_agrees name (some BrokerChannelKind.subject) = refl
  unsubscribe_agrees name (some BrokerChannelKind.stream) = refl

  agree : (intent : Intent) → Agree intent
  unfolding native_packet_request bridge_packet_request
  agree (Intent.send channel payload options) =
      send_agrees channel.name payload options channel.kind
  agree (Intent.subscribe channel options) = subscribe_agrees channel.name options channel.kind
  agree (Intent.unsubscribe channel) = unsubscribe_agrees channel.name channel.kind
  agree (Intent.read _ _) = refl
  agree (Intent.write _ _ _) = refl
  agree (Intent.invoke _ _ _) = refl

  -- For every device, package, command and capture the direct path and the bridge path give the same
  -- packet or the same error, except for a publish or subscribe on a channel of a kind that is no
  -- topic: both refuse it, the bridge path always for its kind, the direct path for its capture if
  -- that is foreign or malformed, else for its kind.
  pub native_packet_request-bridge_packet_request : Agree command.intent
  native_packet_request-bridge_packet_request = agree command.intent
