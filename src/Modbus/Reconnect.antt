-- ===== src/Modbus/Reconnect.antt =====
-- crates/ferredge-proto-modbus/src/endpoint.rs: `ModbusReconnectConfig`, and
-- crates/ferredge-proto-modbus/src/transport.rs: `request_attempt_budget`.
pub mod Laws
use ferredge.Prelude.{
  ℕ, zero, suc, ◌+◌, ◌-◌, ◌*◌, ◌/◌, ◌^◌, Bool, true, not, ◌&&◌, ◌||◌, Option, none, some, min, max,
  leb, if◌then◌else◌, map_option, unwrap_or,
}
use ferredge.Core.Backoff.{BackoffStrategy, fixed, exponential}
use ferredge.Modbus.Types.{ModbusReconnectConfig}

abbrev pub nanos_per_milli : ℕ
nanos_per_milli = 1000000

-- `Duration::as_millis`.
abbrev pub as_millis : ℕ → ℕ
as_millis duration = duration / nanos_per_milli

-- `Duration::from_millis(millis.min(u128::from(u64::MAX)) as u64)`.
abbrev pub from_millis_u64 : ℕ → ℕ
from_millis_u64 millis = min millis (2 ^ 64 - 1) * nanos_per_milli

unfoldable pub allows_retry : ModbusReconnectConfig → ℕ → Bool
allows_retry config attempt = config.enabled && leb attempt config.max_attempts

-- The rounds left of `for _ in 1..attempt`.
unfoldable pub backoff_millis : ℕ → ℕ → ℕ → ℕ → ℕ
backoff_millis zero multiplier max_millis millis = millis
backoff_millis (suc rounds) multiplier max_millis millis =
    let millis' = min (millis * multiplier) (2 ^ 128 - 1) in
    let rest = backoff_millis rounds multiplier max_millis millis' in
    if leb max_millis millis' then max_millis else rest

-- The body below `let initial_delay = self.initial_delay?`.
unfoldable pub delay_from : ModbusReconnectConfig → ℕ → ℕ → ℕ
unfolding backoff_millis
delay_from config attempt initial_delay =
    let max_delay = unwrap_or config.max_delay initial_delay in
    if leb attempt 1 then initial_delay else elim config.strategy [
      | fixed ↦ min initial_delay max_delay
      | exponential ↦ from_millis_u64 (
          backoff_millis (attempt - 1) (max config.multiplier 1) (max (as_millis max_delay) 1)
            (max (as_millis initial_delay) 1))
    ]

unfoldable pub delay_for_attempt : ModbusReconnectConfig → ℕ → Option ℕ
unfolding delay_from
delay_for_attempt config attempt = map_option (delay_from config attempt) config.initial_delay

-- `max_attempts.saturating_add(1)` is on `u32`.
unfoldable pub request_attempt_budget : ModbusReconnectConfig → Bool → ℕ
request_attempt_budget reconnect is_write =
    if not reconnect.enabled || (is_write && not reconnect.retry_writes)
    then 1
    else min (reconnect.max_attempts + 1) (2 ^ 32 - 1)
