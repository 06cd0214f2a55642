-- ===== src/Modbus/Driver/Attempts.antt =====
-- The attempts that the driver makes for one request.
use ferredge.Prelude.{
  ◌∙◌, if◌then◌else◌, ◌≡◌, refl, sym, ℕ, zero, suc, ◌+◌, ◌≤◌, ◌<◌, Bool, true, false, not, ◌&&◌,
  ◌||◌, String, Option, none, some, List, Result, ok, err, leb, Bool-cases, Result-cases, ◌⊎◌, inl,
  inr, arith,
}
use ferredge.Modbus.Types.{ModbusDevice, ModbusRequest, options}
use ferredge.Modbus.Reconnect.{request_attempt_budget, delay_for_attempt}
use ferredge.Modbus.Reconnect.Laws.{request_attempt_budget_lem}
use ferredge.Modbus.Driver.{
  ModbusTransport, is_retryable_transport_error, pause, attempts_loop, execute_on_endpoint,
}

module _ {P W : Type 0} (transport : ModbusTransport P W) (lock : W → Bool) (sleep : ℕ → W → W)
    (device : ModbusDevice P) (request : ModbusRequest) where
  abbrev pub Answer : Type 0
  Answer = Result (List ℕ) String × Option transport.Session × W

  abbrev pub attempt_from : Option transport.Session → W → Answer
  attempt_from session w = transport.exchange device.endpoint request session w

  abbrev pub delayed : ℕ → W → W
  delayed attempt w =
      pause transport lock sleep device request
        (delay_for_attempt (options device.endpoint).reconnect attempt) w

  -- A run of `count` attempts from the one numbered `attempt` on, with `budget` in all: every attempt
  -- but the last failed with an error worth a retry and was followed by the policy's delay, and each
  -- went on with the session that the one before left.
  pub data Run (budget : ℕ) : ℕ → ℕ → Option transport.Session → W → Answer → Type 0 where
    success :
        (attempt : ℕ) (session session' : Option transport.Session) (w w' : W) (frame : List ℕ)
        → attempt_from session w ≡ (ok frame, session', w')
        → Run budget 1 attempt session w (ok frame, session', w')
    final_error :
        (attempt : ℕ) (session session' : Option transport.Session) (w w' : W) (error : String)
        → attempt_from session w ≡ (err error, session', w')
        → (budget ≤ attempt + 1) ⊎ (is_retryable_transport_error error ≡ false)
        → Run budget 1 attempt session w (err error, session', w')
    retry :
        (count attempt : ℕ) (session session' : Option transport.Session) (w w' : W)
        (error : String) (answer : Answer)
        → attempt_from session w ≡ (err error, session', w')
        → attempt + 1 < budget
        → is_retryable_transport_error error ≡ true
        → Run budget count (attempt + 1) session' (delayed (attempt + 1) w') answer
        → Run budget (suc count) attempt session w answer

  module _ (left attempt budget : ℕ) (last_error : Option String)
      (session : Option transport.Session) (w : W) where
    abbrev looped : ℕ → Answer
    looped rounds =
        attempts_loop transport lock sleep device request rounds attempt budget last_error session w

    looped-ok :
        (frame : List ℕ)
        → (attempt_from session w).0 ≡ ok frame
        → looped (suc left) ≡ (ok frame, (attempt_from session w).1, (attempt_from session w).2)
    unfolding attempts_loop
    looped-ok frame got = rw (attempts_loop, got) refl

    looped-stop :
        (error : String)
        → (attempt_from session w).0 ≡ err error
        → (leb budget (attempt + 1) || not (is_retryable_transport_error error)) ≡ true
        → looped (suc left) ≡ (err error, (attempt_from session w).1, (attempt_from session w).2)
    unfolding attempts_loop
    looped-stop error got stop = rw (attempts_loop, got, stop) refl

    looped-go :
        (error : String)
        → (attempt_from session w).0 ≡ err error
        → (leb budget (attempt + 1) || not (is_retryable_transport_error error)) ≡ false
        → looped (suc left)
          ≡ attempts_loop transport lock sleep device request left
              (attempt + 1)
              budget
              (some error)
              (attempt_from session w).1
              (delayed (attempt + 1) (attempt_from session w).2)
    unfolding attempts_loop
    looped-go error got go = rw (attempts_loop, got, go) refl

  whole :
      {outcome : Result (List ℕ) String} (session : Option transport.Session) (w : W)
      → (attempt_from session w).0 ≡ outcome
      → attempt_from session w ≡ (outcome, (attempt_from session w).1, (attempt_from session w).2)
  whole session w got = λ i. (got i, (attempt_from session w).1, (attempt_from session w).2)

  stop-cases :
      (a b : ℕ) (retryable : Bool)
      → (leb a b || not retryable) ≡ true
      → (a ≤ b) ⊎ (retryable ≡ false)
  stop-cases a b retryable h = ground arith

  go-cases :
      (a b : ℕ) (retryable : Bool)
      → (leb a b || not retryable) ≡ false
      → (b < a) × (retryable ≡ true)
  go-cases a b retryable h = ground arith

  attempts_loop-Run :
      (left attempt budget : ℕ) (last_error : Option String) (session : Option transport.Session)
      (w : W)
      → 1 ≤ left
      → left + attempt ≡ budget
      → (count : ℕ) × (count ≤ left)
        × Run budget count attempt session w (
            attempts_loop transport lock sleep device request left attempt budget last_error session
              w)
  attempts_loop-Run zero attempt budget last_error session w pos e = absurd (omega arith)
  attempts_loop-Run (suc left) attempt budget last_error session w pos e =
      elim (Result-cases (attempt_from session w).0) [
        | inl (frame, got) ↦ (
          1,
          omega arith,
          rw (looped-ok left attempt budget last_error session w frame got)
              (success attempt session _ w _ frame (whole session w got)),
        )
        | inr (error, got) ↦
            elim (Bool-cases
              (leb budget (attempt + 1) || not (is_retryable_transport_error error))) [
                | inl stop ↦ (
                  1,
                  omega arith,
                  rw (looped-stop left attempt budget last_error session w error got stop) (
                      final_error attempt session _ w _ error (whole session w got)
                        (stop-cases budget (attempt + 1) _ stop)),
                )
                | inr go ↦
                    let (more, retryable) = go-cases budget (attempt + 1) _ go in
                    let (count, few, run) =
                      attempts_loop-Run left (attempt + 1) budget (some error)
                        (attempt_from session w).1
                        (delayed (attempt + 1) (attempt_from session w).2) (omega arith)
                        (omega arith) in
                    (
                      suc count,
                      omega arith,
                      rw (looped-go left attempt budget last_error session w error got go) (
                          retry count attempt session _ w _ error _ (whole session w got) more
                            retryable run),
                    )
              ]
      ]

  -- With the session lock taken, a request is a run of attempts, at least one and within the budget,
  -- and the answer, the session and what the transport acted on are the last attempt's.
  pub execute_on_endpoint-Run :
      (session : Option transport.Session) (w : W)
      → lock w ≡ true
      → (count : ℕ) × (count
          ≤ request_attempt_budget (options device.endpoint).reconnect request.is_write)
        × Run
            (request_attempt_budget (options device.endpoint).reconnect request.is_write)
            count
            0
            session
            w
            (execute_on_endpoint transport lock sleep device request session w)
  unfolding execute_on_endpoint
  execute_on_endpoint-Run session w locked =
      let budget = request_attempt_budget (options device.endpoint).reconnect request.is_write in
      let least =
        (request_attempt_budget_lem (options device.endpoint).reconnect request.is_write).0 in
      rw (execute_on_endpoint, locked)
        (attempts_loop-Run budget 0 budget none session w least (omega arith))

  single :
      {budget count attempt : ℕ} {session : Option transport.Session} {w : W} {answer : Answer}
      → budget ≡ 1
      → Run budget count attempt session w answer
      → answer ≡ attempt_from session w
  single one (success attempt session session' w w' frame e) = sym e
  single one (final_error attempt session session' w w' error e stop) = sym e
  single one (retry count attempt session session' w w' error answer e more retryable run) =
      absurd (omega arith)

  -- A write that the policy does not let be repeated reaches the transport exactly once if the session
  -- lock is taken, whatever comes of it, and its answer, session and world are those of that exchange;
  -- if the lock is not taken it does not reach the transport, and session and world stay as they are.
  pub execute_on_endpoint-single :
      (session : Option transport.Session) (w : W)
      → (request.is_write && not (options device.endpoint).reconnect.retry_writes) ≡ true
      → execute_on_endpoint transport lock sleep device request session w ≡ (
          if lock w
          then transport.exchange device.endpoint request session w
          else (err "failed to lock Modbus persistent session", session, w))
  unfolding execute_on_endpoint
  execute_on_endpoint-single session w write = elim (Bool-cases (lock w)) [
    | inl locked ↦
        single
          ((request_attempt_budget_lem (options device.endpoint).reconnect request.is_write).1
            write)
          (execute_on_endpoint-Run session w locked).2
        ∙ rw locked refl
    | inr poisoned ↦ rw poisoned refl
  ]
