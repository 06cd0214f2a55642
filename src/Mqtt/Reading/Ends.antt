-- ===== src/Mqtt/Reading/Ends.antt =====
-- Reading from a session answers, whatever the network delivers.
use ferredge.Prelude.{
  ℕ, String, Option, none, some, List, [], ◌∷◌, Result, ok, err, Bool-cases, inl, inr, ◌==◌,
}
use ferredge.Mqtt.Package.{MqttCore}
use ferredge.Mqtt.Session.{Runtime, Watch, unwatched, handle_connection_events}
use ferredge.Mqtt.Session.Ends.{Ends, if-IsAnswered, bind-Ends, handle_events-Ends}
use ferredge.Mqtt.Reading.{
  ping, ping_if_due, is_recent, send_keepalive_ping_if_due, receive, after_read, read_from_session,
}

module _ (core : MqttCore) (lossy : List ℕ → String) (from_utf8 : List ℕ → Option String)
    {S : Type 0} (runtime : Runtime S) where
  ping-Ends : Ends (ping core lossy from_utf8 runtime)
  unfolding handle_connection_events
  ping-Ends = record {
    answers = λ session.
        (bind-Ends _ _ (record { answers = λ s. tt })
            (λ packet.
              bind-Ends _ _ (record { answers = λ s. tt })
                (λ events.
                  bind-Ends _ _ (record { answers = λ s. tt })
                    (λ _.
                      bind-Ends _ _
                        (handle_events-Ends core lossy from_utf8 runtime unwatched [] events)
                        (λ _. record { answers = λ s. tt }))))).answers
          session;
  }

  due-Ends :
      (keepalive_secs : Option ℕ) → Ends (ping_if_due core lossy from_utf8 runtime keepalive_secs)
  due-Ends none = record { answers = λ s. tt }
  due-Ends (some keepalive_secs) = record {
    answers = λ session. if-IsAnswered (keepalive_secs == 0) (some (ok tt, session)) _ tt (
        if-IsAnswered (is_recent core lossy from_utf8 runtime session keepalive_secs)
          (some (ok tt, session)) _ tt
          (if-IsAnswered session.awaiting_pingresp
            (some (err "mqtt keepalive timed out waiting for ping response", session))
            (ping core lossy from_utf8 runtime session) tt (ping-Ends.answers session)));
  }

  pub keepalive-Ends : Ends (send_keepalive_ping_if_due core lossy from_utf8 runtime)
  unfolding send_keepalive_ping_if_due
  keepalive-Ends = record { answers = λ session. (due-Ends session.keepalive_secs).answers session }

  receive-Ends :
      (watch : Watch) (bytes : List ℕ) → Ends (receive core lossy from_utf8 runtime watch bytes)
  unfolding handle_connection_events
  receive-Ends watch bytes = record {
    answers = λ session.
        (handle_events-Ends core lossy from_utf8 runtime watch []
            (core.recv session.connection bytes).0).answers
          _;
  }

  read-Ends :
      (watch : Watch) (answer : Result (List ℕ) runtime.stream.Error)
      → Ends (after_read core lossy from_utf8 runtime watch answer)
  read-Ends watch (ok []) = record { answers = λ s. tt }
  read-Ends watch (ok (byte ∷ bytes)) = receive-Ends watch (byte ∷ bytes)
  read-Ends watch (err error) = elim (Bool-cases (runtime.is_timed_out error)) [
    | inl late ↦ rw late (bind-Ends _ _ keepalive-Ends (λ _. record { answers = λ s. tt }))
    | inr other ↦ rw other (record { answers = λ s. tt })
  ]

  pub read_from_session-Ends :
      (watch : Watch) (timeout : Option ℕ)
      → Ends (read_from_session core lossy from_utf8 runtime watch timeout)
  unfolding read_from_session
  read_from_session-Ends watch timeout =
      bind-Ends _ _ (record { answers = λ s. tt })
        (λ _. bind-Ends _ _ (record { answers = λ s. tt }) (read-Ends watch))
