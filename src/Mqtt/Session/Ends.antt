-- ===== src/Mqtt/Session/Ends.antt =====
-- Every step of a session answers.
use ferredge.Prelude.{
  if◌then◌else◌, ◌≡◌, refl, ℕ, String, Option, none, some, List, [], ◌∷◌, ◌++◌, Result, ok, err,
  Bool, true, false, length, arith,
}
use ferredge.Core.Net.{write_all}
use ferredge.Core.Net.WriteAll.{IsAnswered, write_loop-ends}
use ferredge.Core.Command.{RoutedMessage}
use ferredge.Mqtt.Package.{MqttCore, Event, Packet}
use ferredge.Mqtt.Types.{MqttPacketRequest}
use ferredge.Mqtt.Action.{Action, ◌>>=◌}
use ferredge.Mqtt.Auth.{MqttAuthProvider}
use ferredge.Mqtt.Session.{
  unwatched, watch_connack, watch_auth, Runtime, MqttClientSession, Watch, on_socket, send_packet,
  process_outbound_auth_events, process_incoming_auth, handle_events, handle_connection_events,
  send_packet_request,
}

pub record Ends {S A : Type 0} (m : Action S A) : Type 0 where
  pub answers : (s : S) → IsAnswered (m s)

pub if-IsAnswered :
    {A : Type 0} (b : Bool) (x y : Option A)
    → IsAnswered x
    → IsAnswered y
    → IsAnswered (if b then x else y)
if-IsAnswered true x y x-answered y-answered = x-answered
if-IsAnswered false x y x-answered y-answered = y-answered

module _ {S A B : Type 0} (m : Action S A) (f : A → Action S B) where
  ends_after :
      ((a : A) → Ends (f a))
      → (s : S) (answer : Option (Result A String × S)) → m s ≡ answer
      → IsAnswered answer
      → IsAnswered ((m >>= f) s)
  unfolding ◌>>=◌
  ends_after f-Ends s none e answered = absurd answered
  ends_after f-Ends s (some (ok a, s')) e answered = rw (e, IsAnswered) ((f-Ends a).answers s')
  ends_after f-Ends s (some (err x, s')) e answered = rw (e, IsAnswered) tt

  pub bind-Ends : Ends m → ((a : A) → Ends (f a)) → Ends (m >>= f)
  bind-Ends m-Ends f-Ends = record {
    answers = λ s. ends_after f-Ends s (m s) refl (m-Ends.answers s);
  }

abbrev always : {S A : Type 0} {f : S → Result A String × S} → Ends (λ s. some (f s))
always = record { answers = λ s. tt }

module _ (core : MqttCore) (lossy : List ℕ → String) (from_utf8 : List ℕ → Option String)
    {S : Type 0} (runtime : Runtime S) where
  module _ {A : Type 0} (text : String)
      (method : S → Option (Result A runtime.stream.Error × S)) where
    socket_after :
        (session : MqttClientSession core S) (answer : Option (Result A runtime.stream.Error × S))
        → method session.socket ≡ answer
        → IsAnswered answer
        → IsAnswered (on_socket core lossy from_utf8 runtime text method session)
    socket_after session none e answered = absurd answered
    socket_after session (some x) e answered = rw (e, IsAnswered, on_socket) tt

    pub on_socket-Ends :
        ((s : S) → IsAnswered (method s))
        → Ends (on_socket core lossy from_utf8 runtime text method)
    on_socket-Ends method-ends = record {
      answers =
          λ session. socket_after session (method session.socket) refl (method-ends session.socket);
    }

  write-IsAnswered : (bytes : List ℕ) (s : S) → IsAnswered (write_all runtime.stream bytes s)
  unfolding write_all
  write-IsAnswered bytes s = write_loop-ends runtime.stream (length bytes) bytes s (omega arith)

  send_packet-Ends :
      (write_error flush_error : String) (packet : Packet)
      → Ends (send_packet core lossy from_utf8 runtime write_error flush_error packet)
  unfolding send_packet
  send_packet-Ends write_error flush_error packet =
      bind-Ends _ _ (on_socket-Ends _ _ (write-IsAnswered _))
        (λ _. bind-Ends _ _ (record { answers = λ s. tt }) (λ _. record { answers = λ s. tt }))

  outbound-Ends :
      (events : List Event)
      → Ends (process_outbound_auth_events core lossy from_utf8 runtime events)
  unfolding process_outbound_auth_events
  outbound-Ends [] = record { answers = λ s. tt }
  outbound-Ends (Event.request_send_packet packet ∷ events) =
      bind-Ends _ _ (send_packet-Ends _ _ packet) (λ _. outbound-Ends events)
  outbound-Ends (Event.notify_error error ∷ events) = record { answers = λ s. tt }
  outbound-Ends (Event.request_close ∷ events) = record { answers = λ s. tt }
  outbound-Ends (Event.notify_packet_received _ ∷ events) = outbound-Ends events
  outbound-Ends (Event.notify_packet_id_released ∷ events) = outbound-Ends events
  outbound-Ends (Event.request_timer_reset ∷ events) = outbound-Ends events
  outbound-Ends (Event.request_timer_cancel ∷ events) = outbound-Ends events

  incoming-Ends :
      (handler : Option MqttAuthProvider) (packet : Packet)
      → Ends (process_incoming_auth core lossy from_utf8 runtime handler packet)
  unfolding process_incoming_auth
  incoming-Ends handler (Packet.v5_auth packet) = record {
    answers = λ session.
        (bind-Ends _ _ (record { answers = λ s. tt })
            (λ _.
              bind-Ends _ _ (record { answers = λ s. tt })
                (λ _. bind-Ends _ _ (record { answers = λ s. tt }) outbound-Ends))).answers
          _;
  }
  incoming-Ends handler _ = record { answers = λ s. tt }

  auth-Ends :
      (handler : Option (Option MqttAuthProvider)) (packet : Packet)
      → Ends (watch_auth core lossy from_utf8 runtime handler packet)
  auth-Ends none packet = record { answers = λ s. tt }
  auth-Ends (some handler) packet = incoming-Ends handler packet

  connack-Ends :
      (negotiated : Bool) (packet : Packet)
      → Ends (watch_connack core lossy from_utf8 runtime negotiated packet)
  connack-Ends true packet = record { answers = λ s. tt }
  connack-Ends false packet = record { answers = λ s. tt }

  pub handle_events-Ends :
      (watch : Watch) (routed : List RoutedMessage) (events : List Event)
      → Ends (handle_events core lossy from_utf8 runtime watch routed events)
  unfolding handle_events
  handle_events-Ends watch routed [] = record { answers = λ s. tt }
  handle_events-Ends watch routed (Event.request_send_packet packet ∷ events) =
      bind-Ends _ _ (send_packet-Ends _ _ packet) (λ _. handle_events-Ends watch routed events)
  handle_events-Ends watch routed (Event.notify_packet_received packet ∷ events) =
      bind-Ends _ _ (connack-Ends watch.negotiated packet) (λ _.
        bind-Ends _ _ (auth-Ends watch.auth_handler packet) (λ _.
          bind-Ends _ _ (record { answers = λ s. tt })
            (λ messages. handle_events-Ends watch (routed ++ messages) events)))
  handle_events-Ends watch routed (Event.notify_error error ∷ events) = record { answers = λ s. tt }
  handle_events-Ends watch routed (Event.request_close ∷ events) = record { answers = λ s. tt }
  handle_events-Ends watch routed (Event.notify_packet_id_released ∷ events) =
      handle_events-Ends watch routed events
  handle_events-Ends watch routed (Event.request_timer_reset ∷ events) =
      handle_events-Ends watch routed events
  handle_events-Ends watch routed (Event.request_timer_cancel ∷ events) =
      handle_events-Ends watch routed events

  pub send_packet_request-Ends :
      (request : MqttPacketRequest)
      → Ends (send_packet_request core lossy from_utf8 runtime request)
  unfolding send_packet_request handle_connection_events
  send_packet_request-Ends request =
      bind-Ends _ _ (record { answers = λ s. tt })
        (λ assigned.
          bind-Ends _ _ (record { answers = λ s. tt })
            (λ _.
              bind-Ends _ _ (record { answers = λ s. tt })
                (λ events.
                  bind-Ends _ _ (handle_events-Ends unwatched [] events)
                    (λ _. record { answers = λ s. tt }))))
