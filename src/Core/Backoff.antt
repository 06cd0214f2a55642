-- ===== src/Core/Backoff.antt =====
-- crates/ferredge-core/src/device.rs: `BackoffStrategy`, `BrokerReconnectConfig`.
pub mod Laws
use ferredge.Prelude.{
  ℕ, zero, suc, ◌-◌, ◌*◌, ◌^◌, Bool, true, ◌&&◌, Option, none, some, min, max, leb, if◌then◌else◌,
}

pub data BackoffStrategy : Type 0 where
  fixed exponential : BackoffStrategy

-- `u64::saturating_mul`.
abbrev pub saturating_mul_u64 : ℕ → ℕ → ℕ
saturating_mul_u64 a b = min (a * b) (2 ^ 64 - 1)

pub record BrokerReconnectConfig : Type 0 where
  pub enabled : Bool
  pub initial_delay_ms : ℕ
  pub max_delay_ms : ℕ
  pub strategy : BackoffStrategy
  pub multiplier : ℕ
  pub max_attempts : Option ℕ
  pub replay_subscriptions : Bool
  pub queue_requests_while_disconnected : Bool
  pub max_queued_requests : ℕ

abbrev within_limit : Option ℕ → ℕ → Bool
within_limit none attempt = true
within_limit (some max_attempts) attempt = leb attempt max_attempts

unfoldable pub allows_attempt : BrokerReconnectConfig → ℕ → Bool
allows_attempt config attempt = config.enabled && within_limit config.max_attempts attempt

-- The rounds left of `for _ in 1..attempt`; what follows the loop is its end.
unfoldable pub exponential_loop : ℕ → ℕ → ℕ → ℕ → ℕ
exponential_loop zero multiplier max_delay delay = min delay max_delay
exponential_loop (suc rounds) multiplier max_delay delay =
    let delay' = saturating_mul_u64 delay multiplier in
    let rest = exponential_loop rounds multiplier max_delay delay' in
    if leb max_delay delay' then max_delay else rest

unfoldable pub delay_ms_for_attempt : BrokerReconnectConfig → ℕ → ℕ
unfolding exponential_loop
delay_ms_for_attempt config attempt =
    if leb attempt 1
    then min config.initial_delay_ms config.max_delay_ms
    else elim config.strategy [
      | fixed ↦ min config.initial_delay_ms config.max_delay_ms
      | exponential ↦
          exponential_loop (attempt - 1) (max config.multiplier 1) config.max_delay_ms
            (max config.initial_delay_ms 1)
    ]
