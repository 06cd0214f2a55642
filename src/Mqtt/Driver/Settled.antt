-- ===== src/Mqtt/Driver/Settled.antt =====
-- What is left of the session and the queue after a request.
use ferredge.Prelude.{
  ◌∙◌, sym, subst, ◌≡◌, refl, ℕ, suc, String, Option, none, some, List, Result, ok, err, Bool, true,
  false, is_ok, is_some,
}
use ferredge.Core.Net.WriteAll.{IsAnswered}
use ferredge.Core.Command.{RoutedMessage}
use ferredge.Mqtt.Package.{MqttCore}
use ferredge.Mqtt.Types.{MqttPacketRequest}
use ferredge.Mqtt.Action.{◌>>◌, done, Action, ◌>>=◌}
use ferredge.Mqtt.Session.{Runtime, Watch, MqttClientSession}
use ferredge.Mqtt.Session.Ends.{Ends, bind-Ends, send_packet_request-Ends}
use ferredge.Mqtt.Reading.Ends.{read_from_session-Ends}
use ferredge.Mqtt.DriverState.{MqttDriver, Surroundings, SessionCommandKind}
use ferredge.Mqtt.Driver.{
  events_of, exchange, on_session, settle, send_directly, send, publish, ensure_connected,
  take_session_wait, watch_of,
}

-- There is an answer; the session is there exactly if it is no error, and what the driver keeps for
-- a reconnect is as it was.
abbrev pub IsSettled :
    {core : MqttCore} {S A : Type 0}
    → MqttDriver core S
    → Option (Result A String × MqttDriver core S)
    → Type 0
IsSettled before none = ⊥
IsSettled before (some (answer, after)) =
    (is_some after.session ≡ is_ok answer) × (after.recovery ≡ before.recovery)

module _ {S A B : Type 0} where
  bind_ok :
      (m : Action S A) (f : A → Action S B) (s : S) (a : A) (s' : S)
      → m s ≡ some (ok a, s')
      → (m >>= f) s ≡ f a s'
  unfolding ◌>>=◌
  bind_ok m f s a s' e = rw (e, ◌>>=◌) refl

  bind_same :
      (m m' : Action S A) (f : A → Action S B) (s s' : S)
      → m s ≡ m' s'
      → (m >>= f) s ≡ (m' >>= f) s'
  unfolding ◌>>=◌
  bind_same m m' f s s' e = rw (e, ◌>>=◌) refl

module _ {core : MqttCore} {S A B : Type 0} (before : MqttDriver core S)
    (m : Action (MqttDriver core S) A) (f : A → B) (driver : MqttDriver core S) where
  after_settled :
      (answer : Option (Result A String × MqttDriver core S))
      → m driver ≡ answer
      → IsSettled before answer
      → IsSettled before ((m >>= λ a. done (f a)) driver)
  unfolding ◌>>=◌
  after_settled none e h = absurd h
  after_settled (some (ok a, after)) e h = rw (e, IsSettled) h
  after_settled (some (err x, after)) e h = rw (e, IsSettled) h

  settled_then : IsSettled before (m driver) → IsSettled before ((m >>= λ a. done (f a)) driver)
  settled_then h = after_settled (m driver) refl h

module _ (core : MqttCore) (lossy : List ℕ → String) (from_utf8 : List ℕ → Option String)
    {S : Type 0} (runtime : Runtime S)
    (surroundings : Surroundings core S runtime.stream.Error) where
  pub exchange-Ends :
      (request : MqttPacketRequest) (watch : Watch)
      → Ends (exchange core lossy from_utf8 runtime surroundings request watch)
  unfolding exchange
  exchange-Ends request watch =
      bind-Ends _ _ (send_packet_request-Ends core lossy from_utf8 runtime request)
        (λ _. read_from_session-Ends core lossy from_utf8 runtime watch _)

  connected :
      (fuel : ℕ) (driver : MqttDriver core S) (session : MqttClientSession core S)
      → driver.session ≡ some session
      → ensure_connected core lossy from_utf8 runtime surroundings fuel driver
        ≡ some (ok tt, driver)
  unfolding ensure_connected
  connected fuel driver session e = there driver.session e
    where
      there :
          (kept : Option (MqttClientSession core S))
          → kept ≡ some session
          → ensure_connected core lossy from_utf8 runtime surroundings fuel
              (record driver { session = kept })
            ≡ some (ok tt, record driver { session = kept })
      there none e = cc
      there (some kept) e = refl

  took :
      (fuel : ℕ) (driver : MqttDriver core S) (session : MqttClientSession core S)
      → driver.session ≡ some session
      → take_session_wait core lossy from_utf8 runtime surroundings (suc fuel) driver
        ≡ some (ok session, record driver { session = none })
  unfolding take_session_wait
  took fuel driver session e = rw e refl

  module _ (request : MqttPacketRequest) (driver : MqttDriver core S)
      (quiet : driver.listener_running ≡ false) where
    settled :
        (answer : Option (Result (List RoutedMessage) String × MqttClientSession core S))
        → IsAnswered answer
        → (session : MqttClientSession core S)
        → exchange core lossy from_utf8 runtime surroundings request
            (watch_of core lossy from_utf8 runtime surroundings driver)
            (record session { negotiated_connack = driver.negotiated_connack })
          ≡ answer
        → IsSettled driver (
            (on_session core lossy from_utf8 runtime surroundings
                  (exchange core lossy from_utf8 runtime surroundings request)
                  session
                >>= settle core lossy from_utf8 runtime surroundings request)
              (record driver { session = none }))
    unfolding ◌>>=◌
    settled none answered session e = absurd answered
    settled (some (ok messages, session')) answered session e = rw (e, IsSettled) (refl, refl)
    settled (some (err error, session')) answered session e = rw (e, quiet, IsSettled) (refl, refl)

    taken :
        (fuel : ℕ) (session : MqttClientSession core S)
        → driver.session ≡ some session
        → (ensure_connected core lossy from_utf8 runtime surroundings (suc fuel)
              >> take_session_wait core lossy from_utf8 runtime surroundings (suc fuel))
            driver
          ≡ some (ok session, record driver { session = none })
    unfolding ensure_connected take_session_wait
    taken fuel session e =
        bind_ok (ensure_connected core lossy from_utf8 runtime surroundings (suc fuel))
          (λ _. take_session_wait core lossy from_utf8 runtime surroundings (suc fuel)) driver tt
          driver (connected (suc fuel) driver session e)
        ∙ took fuel driver session e

    sent_directly :
        (fuel : ℕ) (session : MqttClientSession core S)
        → driver.session ≡ some session
        → IsSettled driver
            (send_directly core lossy from_utf8 runtime surroundings (suc fuel) request driver)
    unfolding send_directly
    sent_directly fuel session e =
        subst (IsSettled driver)
          (sym (
            bind_same
              (ensure_connected core lossy from_utf8 runtime surroundings (suc fuel)
                >> take_session_wait core lossy from_utf8 runtime surroundings (suc fuel)
                >>= on_session core lossy from_utf8 runtime surroundings
                    (exchange core lossy from_utf8 runtime surroundings request))
              (on_session core lossy from_utf8 runtime surroundings
                (exchange core lossy from_utf8 runtime surroundings request) session)
              (settle core lossy from_utf8 runtime surroundings request) driver
              (record driver { session = none })
              (bind_ok _ _ driver session _ (taken fuel session e))))
          (settled _
            ((exchange-Ends request
                (watch_of core lossy from_utf8 runtime surroundings driver)).answers
              _)
            session refl)

    sent_quietly :
        (fuel : ℕ) (kind : SessionCommandKind) (running : Bool)
        → running ≡ false
        → send core lossy from_utf8 runtime surroundings fuel kind request
            (record driver { listener_running = running })
          ≡ (send_directly core lossy from_utf8 runtime surroundings fuel request >>= λ messages.
                done (events_of messages))
              (record driver { listener_running = running })
    unfolding send
    sent_quietly fuel kind true e = cc
    sent_quietly fuel kind false e = refl

    -- With a session there and no listener running, publishing always answers, whatever the network
    -- does; afterwards the session is there exactly if there was no error, and the desired
    -- subscriptions and the queue are as they were.
    pub publish-IsSettled :
        (fuel : ℕ) (session : MqttClientSession core S)
        → driver.session ≡ some session
        → IsSettled driver
            (publish core lossy from_utf8 runtime surroundings (suc fuel) request driver)
    unfolding publish send
    publish-IsSettled fuel session e =
        settled_then driver
          (send core lossy from_utf8 runtime surroundings (suc fuel)
            (SessionCommandKind.publish request) request)
          (λ _. tt) driver
          (subst (IsSettled driver)
            (sym (
              sent_quietly (suc fuel) (SessionCommandKind.publish request) driver.listener_running
                quiet))
            (settled_then driver
              (send_directly core lossy from_utf8 runtime surroundings (suc fuel) request) events_of
              driver (sent_directly fuel session e)))
