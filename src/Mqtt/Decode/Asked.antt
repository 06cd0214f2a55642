-- ===== src/Mqtt/Decode/Asked.antt =====
-- What a publish packet that the encoder builds asks for, as the decoder reads it back.
use ferredge.Prelude.{
  as_bytes, then_some, is_some, ◌||◌, ◌⊎◌, ℕ, ◌≡◌, refl, sym, ap, ◌∙◌, String, Option, none, some,
  List, [], ◌∷◌, ◌++◌, Result, ok, err, map_option, ◌or◌, collect, Result-cases, inl, inr,
}
use ferredge.Core.Route.{Address}
use ferredge.Mqtt.Package.{Version, MqttCore, Packet, Property, V5Publish}
use ferredge.Mqtt.Types.{
  MqttCommandConversionError, MqttPacketRequest, MqttWirePacket, MqttProtocolVersion,
}
use ferredge.Mqtt.View.{PublishView}
use ferredge.Mqtt.Build.{
  packet_id_for_qos, qos_from_delivery, pushed, user_properties, correlation_data_of, push_all,
  publish_props, build_publish_packet,
}
use ferredge.Mqtt.Inbound.{PendingReplyRoute, PublishProps, no_props, read_props}
use ferredge.Mqtt.Decode.{false, pending_reply_route_from_packet}

-- The correlation data and the response topic after a list of properties.
abbrev last_correlation : Option (List ℕ) → List Property → Option (List ℕ)
last_correlation found [] = found
last_correlation found (Property.correlation_data val ∷ props) = last_correlation (some val) props
last_correlation found (_ ∷ props) = last_correlation found props

abbrev last_topic : Option String → List Property → Option String
last_topic found [] = found
last_topic found (Property.response_topic val ∷ props) = last_topic (some val) props
last_topic found (_ ∷ props) = last_topic found props

read_props-correlation :
    (props : List Property) (s : PublishProps)
    → (read_props s props).correlation_data ≡ last_correlation s.correlation_data props
unfolding read_props
read_props-correlation [] s = refl
read_props-correlation (Property.correlation_data val ∷ props) s = read_props-correlation props _
read_props-correlation (_ ∷ props) s = read_props-correlation props _

read_props-topic :
    (props : List Property) (s : PublishProps)
    → (read_props s props).response_topic ≡ last_topic s.response_topic props
unfolding read_props
read_props-topic [] s = refl
read_props-topic (Property.response_topic val ∷ props) s = read_props-topic props _
read_props-topic (_ ∷ props) s = read_props-topic props _

quiet_correlation :
    (pairs : List (String × String)) (found : Option (List ℕ))
    → last_correlation found (user_properties pairs) ≡ found
quiet_correlation [] found = refl
quiet_correlation (pair ∷ pairs) found = quiet_correlation pairs found

quiet_topic :
    (pairs : List (String × String)) (found : Option String)
    → last_topic found (user_properties pairs) ≡ found
quiet_topic [] found = refl
quiet_topic (pair ∷ pairs) found = quiet_topic pairs found

-- The properties that the encoder pushes, by what each of them is.
abbrev pushed_props :
    Option ℕ
    → Option ℕ
    → Option ℕ
    → Option String
    → Option String
    → Option (List ℕ)
    → List (String × String)
    → List Property
pushed_props format expiry alias topic content_type correlation pairs =
    pushed Property.payload_format_indicator format
    ++ (pushed Property.message_expiry_interval expiry
        ++ (pushed Property.topic_alias alias
            ++ (pushed Property.response_topic topic
                ++ (pushed Property.content_type content_type
                    ++ (pushed Property.correlation_data correlation ++ user_properties pairs)))))

module _ (pairs : List (String × String)) where
  end_correlation :
      (correlation : Option (List ℕ))
      → last_correlation none
          (pushed Property.correlation_data correlation ++ user_properties pairs)
        ≡ correlation
  end_correlation none = quiet_correlation pairs none
  end_correlation (some val) = quiet_correlation pairs (some val)

  end_topic :
      (correlation : Option (List ℕ)) (found : Option String)
      → last_topic found (pushed Property.correlation_data correlation ++ user_properties pairs)
        ≡ found
  end_topic none found = quiet_topic pairs found
  end_topic (some val) found = quiet_topic pairs found

skip_correlation :
    {A : Type 0} (property : A → Property)
    → ((a : A) (found : Option (List ℕ)) (props : List Property)
        → last_correlation found (property a ∷ props) ≡ last_correlation found props)
    → (o : Option A) (props : List Property)
    → last_correlation none (pushed property o ++ props) ≡ last_correlation none props
skip_correlation property quiet none props = refl
skip_correlation property quiet (some a) props = quiet a none props

skip_topic :
    {A : Type 0} (property : A → Property)
    → ((a : A) (found : Option String) (props : List Property)
        → last_topic found (property a ∷ props) ≡ last_topic found props)
    → (o : Option A) (found : Option String) (props : List Property)
    → last_topic found (pushed property o ++ props) ≡ last_topic found props
skip_topic property quiet none found props = refl
skip_topic property quiet (some a) found props = quiet a found props

module _ (core : MqttCore) (publish : PublishView) where
  asked_correlation :
      last_correlation none (publish_props core publish) ≡ correlation_data_of publish
  unfolding publish_props
  asked_correlation =
      skip_correlation _ (λ a f p. refl) publish.payload_format _
      ∙ skip_correlation _ (λ a f p. refl) publish.message_expiry_interval_secs _
      ∙ skip_correlation _ (λ a f p. refl) publish.topic_alias _
      ∙ skip_correlation _ (λ a f p. refl) (publish.response_topic or publish.reply_to) _
      ∙ skip_correlation _ (λ a f p. refl) publish.content_type _
      ∙ end_correlation publish.projected_user_properties (correlation_data_of publish)

  asked_topic :
      last_topic none (publish_props core publish) ≡ (publish.response_topic or publish.reply_to)
  unfolding publish_props
  asked_topic =
      skip_topic _ (λ a f p. refl) publish.payload_format none _
      ∙ skip_topic _ (λ a f p. refl) publish.message_expiry_interval_secs none _
      ∙ skip_topic _ (λ a f p. refl) publish.topic_alias none _
      ∙ topic_pushed (publish.response_topic or publish.reply_to)
    where
      topic_pushed :
          (topic : Option String)
          → last_topic none (
              pushed Property.response_topic topic
              ++ (pushed Property.content_type publish.content_type
                  ++ (pushed Property.correlation_data (correlation_data_of publish)
                      ++ user_properties publish.projected_user_properties)))
            ≡ topic
      topic_pushed none =
          skip_topic _ (λ a f p. refl) publish.content_type none _
          ∙ end_topic publish.projected_user_properties (correlation_data_of publish) none
      topic_pushed (some topic) =
          skip_topic _ (λ a f p. refl) publish.content_type (some topic) _
          ∙ end_topic publish.projected_user_properties (correlation_data_of publish) (some topic)

-- The package refuses a property, or all are kept as they are.
push_all-cases :
    (core : MqttCore) (props : List Property)
    → (push_all core props ≡ ok props) ⊎ ((e : String) × (push_all core props ≡ err e))
unfolding push_all collect
push_all-cases core [] = inl refl
push_all-cases core (prop ∷ props) = elim (Result-cases (core.check_property prop)) [
  | inr (x, e) ↦ inr (x, rw e refl)
  | inl (u, e) ↦ elim (push_all-cases core props) [
    | inl f ↦ inl (rw (e, f) refl)
    | inr (x, f) ↦ inr (x, rw (e, f) refl)
  ]
]

-- The correlation data of a publish, by what it carries: its own, its correlation's, and, if it names a
-- response topic or a reply channel, its command's id.
abbrev pub told_by :
    Option (List ℕ) → Option String → Option String → Option String → String → Option (List ℕ)
told_by (some own) correlation_id response_topic reply_to command_id = some own
told_by none (some correlation_id) response_topic reply_to command_id =
    some (as_bytes correlation_id)
told_by none none (some topic) reply_to command_id = some (as_bytes command_id)
told_by none none none (some channel) command_id = some (as_bytes command_id)
told_by none none none none command_id = none

-- Where the answer goes: the response topic before the reply channel.
abbrev pub answered_at : Option String → Option String → Option Address
answered_at (some topic) reply_to = some (Address.channel topic)
answered_at none (some channel) = some (Address.channel channel)
answered_at none none = none

abbrev pub awaited :
    (List ℕ → String)
    → String
    → Option (List ℕ)
    → Option Address
    → Option (String × PendingReplyRoute)
awaited lossy command_id none reply_to = none
awaited lossy command_id (some correlation) reply_to =
    some (lossy correlation, record { command_id = command_id; reply_to = reply_to })

told_by-correlation_data_of :
    (publish : PublishView)
    → correlation_data_of publish
      ≡ told_by publish.correlation_data publish.correlation_id publish.response_topic
          publish.reply_to publish.command_id
unfolding correlation_data_of
told_by-correlation_data_of publish =
    by_parts publish.correlation_data publish.correlation_id publish.response_topic publish.reply_to
  where
    by_parts :
        (own : Option (List ℕ)) (correlation_id response_topic reply_to : Option String)
        → (own
            or map_option as_bytes correlation_id
            or then_some (is_some reply_to || is_some response_topic) (as_bytes publish.command_id))
          ≡ told_by own correlation_id response_topic reply_to publish.command_id
    by_parts (some own) correlation_id response_topic reply_to = refl
    by_parts none (some correlation_id) response_topic reply_to = refl
    by_parts none none (some topic) none = refl
    by_parts none none (some topic) (some channel) = refl
    by_parts none none none (some channel) = refl
    by_parts none none none none = refl

answered_at-channel :
    (response_topic reply_to : Option String)
    → map_option Address.channel (response_topic or reply_to) ≡ answered_at response_topic reply_to
answered_at-channel (some topic) reply_to = refl
answered_at-channel none (some channel) = refl
answered_at-channel none none = refl

module _ (core : MqttCore) (lossy : List ℕ → String) (publish : PublishView) where
  -- The answer to wait for: told by the correlation data, for the command, at the response topic.
  abbrev asked : Option (String × PendingReplyRoute)
  asked =
      map_option
        (λ data_bytes. (
          lossy data_bytes,
          record {
            command_id = publish.command_id;
            reply_to = map_option Address.channel (publish.response_topic or publish.reply_to);
          },
        ))
        (correlation_data_of publish)

  abbrev pub expected : Option (String × PendingReplyRoute)
  expected =
      awaited lossy publish.command_id
        (told_by publish.correlation_data publish.correlation_id publish.response_topic
          publish.reply_to publish.command_id)
        (answered_at publish.response_topic publish.reply_to)

  awaited-option :
      (data_bytes : Option (List ℕ)) (reply_to : Option Address)
      → map_option
          (λ d. (lossy d, record { command_id = publish.command_id; reply_to = reply_to }))
          data_bytes
        ≡ awaited lossy publish.command_id data_bytes reply_to
  awaited-option none reply_to = refl
  awaited-option (some d) reply_to = refl

  asked-expected : asked ≡ expected
  asked-expected =
      awaited-option (correlation_data_of publish)
        (map_option Address.channel (publish.response_topic or publish.reply_to))
      ∙ ap
          (λ d.
            awaited lossy publish.command_id d
              (map_option Address.channel (publish.response_topic or publish.reply_to)))
          (told_by-correlation_data_of publish)
      ∙ ap
          (awaited lossy publish.command_id (
            told_by publish.correlation_data publish.correlation_id publish.response_topic
              publish.reply_to publish.command_id))
          (answered_at-channel publish.response_topic publish.reply_to)

  abbrev IsAsked : Result MqttPacketRequest MqttCommandConversionError → Type 0
  IsAsked answer =
      (request : MqttPacketRequest)
      → answer ≡ ok request
      → pending_reply_route_from_packet lossy request ≡ asked

  IsAsked-err : (e : MqttCommandConversionError) → IsAsked (err e)
  IsAsked-err e request h = cc

  IsAsked-ok :
      (packet : V5Publish)
      → packet.props ≡ publish_props core publish
      → IsAsked (
          ok
            (record { command_id = publish.command_id; packet = MqttWirePacket.v5_publish packet }))
  IsAsked-ok packet same request h =
      ap route_of (sym h)
      ∙ unfold pending_reply_route_from_packet in
        rw
          (
            read_props-correlation packet.props no_props,
            read_props-topic packet.props no_props,
            same,
            asked_correlation core publish,
            asked_topic core publish,
          )
          refl
    where
      route_of :
          Result MqttPacketRequest MqttCommandConversionError → Option (String × PendingReplyRoute)
      route_of (ok r) = pending_reply_route_from_packet lossy r
      route_of (err e) = none

  build-IsAsked : IsAsked (build_publish_packet core publish MqttProtocolVersion.v5_0)
  unfolding build_publish_packet
  build-IsAsked = elim (push_all-cases core (publish_props core publish)) [
    | inr (x, e) ↦ rw e (IsAsked-err _)
    | inl e ↦ elim (Result-cases (core.check_topic_name Version.v5_0 publish.topic)) [
      | inr (x, f) ↦ rw (e, f) (IsAsked-err _)
      | inl (u, f) ↦ elim (Result-cases (core.build (Packet.v5_publish packet))) [
        | inr (x, g) ↦ rw (e, f, g) (IsAsked-err _)
        | inl (v, g) ↦ rw (e, f, g) (IsAsked-ok packet refl)
      ]
    ]
  ]
    where
      packet : V5Publish
      packet = record {
        topic_name = publish.topic;
        qos = qos_from_delivery publish.delivery;
        retain = publish.retain;
        dup = false;
        packet_id = packet_id_for_qos (qos_from_delivery publish.delivery);
        payload = publish.payload;
        props = publish_props core publish;
      }

  -- A publish packet of MQTT 5.0 asks for an answer exactly if the publish has correlation data, its
  -- own, its correlation's or, if it names where to answer, its command's id; the answer is then
  -- waited for under that data, for the command, at the response topic or else the reply channel.
  pub build_publish_packet-asked :
      (request : MqttPacketRequest)
      → build_publish_packet core publish MqttProtocolVersion.v5_0 ≡ ok request
      → pending_reply_route_from_packet lossy request ≡ expected
  build_publish_packet-asked request h = build-IsAsked request h ∙ asked-expected
