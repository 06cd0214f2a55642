-- ===== src/Core/Backoff/Laws.antt =====
-- The delay of the broker's reconnect policy.
use ferredge.Prelude.{
  ℕ, zero, suc, ◌-◌, ◌*◌, ◌^◌, ◌≤◌, ◌<◌, ◌≡◌, arith, min, max, leb, if◌then◌else◌, Bool-cases, inl,
  inr, leb→le, false, ap, ◌∙◌, sym,
}
use native.Mathlib.Nat.{one-le-pow, pow-succ', pow-zero, pow-le-pow_right, mul_assoc}
use ferredge.Core.Backoff.{
  fixed, exponential, BrokerReconnectConfig, saturating_mul_u64, exponential_loop,
  delay_ms_for_attempt,
}

-- A further round multiplies, so it cannot fall below the delay that it starts from.
pub le-mul_pow : (m n d : ℕ) → 1 ≤ m → d ≤ d * m ^ n
le-mul_pow m n d hm = grind (arith, one-le-pow n m hm)

pub mul_pow-suc : (d m n : ℕ) → d * m ^ suc n ≡ d * m * m ^ n
mul_pow-suc d m n = ap (λ t. d * t) (pow-succ' m n) ∙ sym (mul_assoc d m (m ^ n))

not-leb→lt : (a b : ℕ) → leb a b ≡ false → b < a
not-leb→lt a b h = ground arith

-- What the loop computes, without wrapping, saturation or early exit.
exponential_loop-closed :
    (rounds m top d : ℕ)
    → 1 ≤ m
    → 1 ≤ d
    → top < 2 ^ 64
    → exponential_loop rounds m top d ≡ min (d * m ^ rounds) top
unfolding exponential_loop
exponential_loop-closed zero m top d hm hd ht = rw pow-zero (ap (λ t. min t top) (omega arith))
exponential_loop-closed (suc n) m top d hm hd ht =
    elim (Bool-cases (leb top (saturating_mul_u64 d m))) [
      | inl e ↦ rw e (omega (arith, leb→le _ _ e, le-mul_pow m n (d * m) hm, mul_pow-suc d m n))
      | inr e ↦
          let below = not-leb→lt _ _ e in
          let same : saturating_mul_u64 d m ≡ d * m = omega arith in
          rw (e, same, mul_pow-suc d m n)
            (exponential_loop-closed n m top (d * m) hm (grind arith) ht)
    ]

-- The policy without machine arithmetic: the first delay, multiplied once for each earlier attempt.
abbrev pub ideal_delay : BrokerReconnectConfig → ℕ → ℕ
ideal_delay config attempt =
    if leb attempt 1 then config.initial_delay_ms else elim config.strategy [
      | fixed ↦ config.initial_delay_ms
      | exponential ↦ max config.initial_delay_ms 1 * max config.multiplier 1 ^ (attempt - 1)
    ]

-- The delay is the ideal one, capped: the early exit and the saturating product of the loop
-- change nothing, for every cap that fits 64 bits.
pub delay_ms_for_attempt-ideal_delay :
    (config : BrokerReconnectConfig) (attempt : ℕ)
    → config.max_delay_ms < 2 ^ 64
    → delay_ms_for_attempt config attempt ≡ min (ideal_delay config attempt) config.max_delay_ms
unfolding delay_ms_for_attempt
delay_ms_for_attempt-ideal_delay config attempt h = ground (
  arith,
  exponential_loop-closed (attempt - 1) (max config.multiplier 1) config.max_delay_ms
      (max config.initial_delay_ms 1),
)

ideal_delay_mono :
    (config : BrokerReconnectConfig) (a b : ℕ) → a ≤ b → ideal_delay config a ≤ ideal_delay config b
ideal_delay_mono config a b h = ground (
  arith,
  le-mul_pow (max config.multiplier 1) (b - 1) (max config.initial_delay_ms 1),
  mul_le (max config.initial_delay_ms 1) (
      pow-le-pow_right {n = max config.multiplier 1} (omega arith) {i = a - 1} {j = b - 1}
        (omega arith)),
)
  where
    mul_le : (d : ℕ) {x y : ℕ} → x ≤ y → d * x ≤ d * y
    mul_le d p = grind arith

-- Attempts never come faster as their number grows, and no delay passes the cap.
pub delay_ms_for_attempt_mono :
    (config : BrokerReconnectConfig) (a b : ℕ)
    → config.max_delay_ms < 2 ^ 64
    → a ≤ b
    → (delay_ms_for_attempt config a ≤ delay_ms_for_attempt config b)
      × (delay_ms_for_attempt config b ≤ config.max_delay_ms)
delay_ms_for_attempt_mono config a b h le =
    rw (delay_ms_for_attempt-ideal_delay config a h, delay_ms_for_attempt-ideal_delay config b h)
      (omega (arith, ideal_delay_mono config a b le))
