-- ===== src/Mqtt/Recovery/Queue.antt =====
-- What is left in the recovery queue.
use ferredge.Prelude.{
  ℕ, zero, suc, ◌-◌, ◌+◌, ◌≤◌, max, true, List, [], ◌∷◌, ◌++◌, length, drop, leb, ◌≡◌, refl, ap,
  sym, ◌∙◌, arith, length-append, append_assoc, append-nil, length-drop, Bool-cases, leb→le, inl,
  inr, ◌<◌,
}
use ferredge.Core.Backoff.{BrokerReconnectConfig}
use ferredge.Mqtt.Types.{MqttPacketRequest}
use ferredge.Mqtt.Recovery.{Recovery, enqueue_recovery_request, push_bounded}

-- The requests enqueued one after the other.
unfoldable pub enqueue_all : BrokerReconnectConfig → Recovery → List MqttPacketRequest → Recovery
unfolding enqueue_recovery_request
enqueue_all reconnect recovery [] = recovery
enqueue_all reconnect recovery (request ∷ requests) =
    enqueue_all reconnect (enqueue_recovery_request reconnect recovery request).1 requests

-- The last requests that a queue of this bound has room for; it always has room for one.
abbrev pub newest {ℓ} : {A : Type ℓ} → ℕ → List A → List A
newest bound requests = drop (length requests - max 1 bound) requests

module _ {ℓ} {A : Type ℓ} where
  drop-append : (n : ℕ) (xs ys : List A) → n ≤ length xs → drop n (xs ++ ys) ≡ drop n xs ++ ys
  drop-append zero xs ys h = refl
  drop-append (suc n) [] ys h = absurd (omega arith)
  drop-append (suc n) (x ∷ xs) ys h = drop-append n xs ys (omega arith)

  drop_one : (n : ℕ) (xs : List A) → drop 1 (drop n xs) ≡ drop (suc n) xs
  drop_one zero xs = refl
  drop_one (suc n) [] = refl
  drop_one (suc n) (x ∷ xs) = drop_one n xs

  drop_none : (n : ℕ) (xs : List A) → n ≡ 0 → drop n xs ≡ xs
  drop_none zero xs h = refl
  drop_none (suc n) xs h = absurd (omega arith)

  drop_nil : (n : ℕ) → drop {A = A} n [] ≡ []
  drop_nil zero = refl
  drop_nil (suc n) = refl

  -- A full queue makes room.
  room :
      (bound : ℕ) (sent : List A)
      → bound ≤ length (newest bound sent)
      → drop 1 (newest bound sent) ≡ drop (length sent + 1 - max 1 bound) sent
  room bound [] h =
      ap (drop 1) (drop_nil (length {A = A} [] - max 1 bound))
      ∙ sym (drop_nil (length {A = A} [] + 1 - max 1 bound))
  room bound (x ∷ sent) h =
      let same : suc (length (x ∷ sent) - max 1 bound) ≡ length (x ∷ sent) + 1 - max 1 bound =
        omega (arith, length-drop (length (x ∷ sent) - max 1 bound) (x ∷ sent), h) in
      drop_one (length (x ∷ sent) - max 1 bound) (x ∷ sent) ∙ ap (λ k. drop k (x ∷ sent)) same

  -- A queue with room keeps what it has.
  spare :
      (bound : ℕ) (sent : List A)
      → length (newest bound sent) < bound
      → newest bound sent ≡ drop (length sent + 1 - max 1 bound) sent
  spare bound sent h =
      let same : length sent - max 1 bound ≡ length sent + 1 - max 1 bound =
        omega (arith, length-drop (length sent - max 1 bound) sent, h) in
      ap (λ k. drop k sent) same

  newest-snoc :
      (bound : ℕ) (sent : List A) (x : A)
      → newest bound (sent ++ x ∷ []) ≡ drop (length sent + 1 - max 1 bound) sent ++ x ∷ []
  newest-snoc bound sent x =
      let same : length (sent ++ x ∷ []) - max 1 bound ≡ length sent + 1 - max 1 bound =
        omega (arith, length-append sent (x ∷ [])) in
      ap (λ k. drop k (sent ++ x ∷ [])) same
      ∙ drop-append (length sent + 1 - max 1 bound) sent (x ∷ []) (omega arith)

pushed :
    (bound : ℕ) (sent : List MqttPacketRequest) (request : MqttPacketRequest)
    → push_bounded bound (newest bound sent) request ≡ newest bound (sent ++ request ∷ [])
unfolding push_bounded
pushed bound sent request = elim (Bool-cases (leb bound (length (newest bound sent)))) [
  | inl e ↦
      rw e refl
      ∙ ap (λ queue. queue ++ request ∷ []) (room bound sent (leb→le _ _ e))
      ∙ sym (newest-snoc bound sent request)
  | inr e ↦
      rw e refl
      ∙ ap (λ queue. queue ++ request ∷ []) (spare bound sent (ground arith))
      ∙ sym (newest-snoc bound sent request)
]

-- While the queue is enabled, the requests enqueued one after the other leave in it the newest of all
-- that were, in order, as many as its bound says, but at least one.
pub enqueue_all-newest :
    (reconnect : BrokerReconnectConfig) (recovery : Recovery)
    (sent requests : List MqttPacketRequest)
    → reconnect.queue_requests_while_disconnected ≡ true
    → recovery.recovery_queue ≡ newest reconnect.max_queued_requests sent
    → (enqueue_all reconnect recovery requests).recovery_queue
      ≡ newest reconnect.max_queued_requests (sent ++ requests)
unfolding enqueue_all
enqueue_all-newest reconnect recovery sent [] on h =
    h ∙ ap (newest reconnect.max_queued_requests) (sym (append-nil sent))
enqueue_all-newest reconnect recovery sent (request ∷ requests) on h =
    enqueue_all-newest reconnect (enqueue_recovery_request reconnect recovery request).1
      (sent ++ request ∷ []) requests on
      (unfold enqueue_recovery_request in
        rw (on, h) (pushed reconnect.max_queued_requests sent request))
    ∙ ap (newest reconnect.max_queued_requests) (append_assoc sent (request ∷ []) requests)
