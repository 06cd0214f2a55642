-- ===== src/Modbus/Reconnect/Laws.antt =====
-- The retry delay and the number of attempts.
use ferredge.Prelude.{
  ℕ, ◌+◌, ◌-◌, ◌*◌, ◌^◌, ◌≤◌, ◌<◌, ◌≡◌, arith, Bool, true, false, not, ◌&&◌, min, max, leb,
  if◌then◌else◌, unwrap_or,
}
use ferredge.Core.Backoff.{fixed, exponential}
use ferredge.Modbus.Types.{ModbusReconnectConfig}
use ferredge.Modbus.Reconnect.{allows_retry, request_attempt_budget, as_millis, nanos_per_milli}

-- The policy without machine arithmetic or early exit, in whole milliseconds; first delay and cap
-- count as one millisecond where they are shorter.
abbrev pub ideal_millis : ModbusReconnectConfig → ℕ → ℕ → ℕ
ideal_millis config attempt initial_delay =
    min (max (as_millis initial_delay) 1 * max config.multiplier 1 ^ (attempt - 1))
      (max (as_millis (unwrap_or config.max_delay initial_delay)) 1)

abbrev pub ideal_delay_from : ModbusReconnectConfig → ℕ → ℕ → ℕ
ideal_delay_from config attempt initial_delay =
    if leb attempt 1 then initial_delay else elim config.strategy [
      | fixed ↦ min initial_delay (unwrap_or config.max_delay initial_delay)
      | exponential ↦ ideal_millis config attempt initial_delay * nanos_per_milli
    ]

-- At least one attempt is made, a write that must not be repeated and a disabled policy get just
-- one, and the budget is one attempt more than the policy allows, for a count below 2^32 - 1.
pub request_attempt_budget_lem :
    (reconnect : ModbusReconnectConfig) (is_write : Bool)
    → (1 ≤ request_attempt_budget reconnect is_write)
      × ((is_write && not reconnect.retry_writes) ≡ true
          → request_attempt_budget reconnect is_write ≡ 1)
      × ((attempt : ℕ)
          → 1 ≤ attempt
          → reconnect.max_attempts < 2 ^ 32 - 1
          → (is_write && not reconnect.retry_writes) ≡ false
          → leb (attempt + 1) (request_attempt_budget reconnect is_write)
            ≡ allows_retry reconnect attempt)
unfolding request_attempt_budget allows_retry
request_attempt_budget_lem reconnect is_write =
    (ground arith, λ h. ground arith, λ attempt pos small h. ground arith)
