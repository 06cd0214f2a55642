-- ===== src/Witness/Core.antt =====
-- The theorems on the core and the bridge at concrete data.
use ferredge.Prelude.{
  ◌≡◌, refl, ℕ, ◌≤◌, true, false, false, none, some, List, [], ◌∷◌, ◌++◌, if◌then◌else◌, str_eq,
  Result, ok, min, arith, length, take, subst, sym, append-nil,
}
use ferredge.Core.Meta
use ferredge.Core.Meta.{MetaValue}
use ferredge.Core.Meta.Laws.{take-get}
use ferredge.Core.Backoff.{
  BackoffStrategy, BrokerReconnectConfig, delay_ms_for_attempt, allows_attempt,
}
use ferredge.Core.Backoff.Laws.{
  ideal_delay, delay_ms_for_attempt-ideal_delay, delay_ms_for_attempt_mono,
}
use ferredge.Core.Net.{Stream, write_all, format_host_port}
use ferredge.Core.Net.WriteAll.{IsWritten, Writes, write_all-IsWritten}
use ferredge.Witness.Data.{capture}

take-get_example :
    ((Meta.take capture "path").0 ≡ Meta.get capture "path")
    × (Meta.get (Meta.take capture "path").1 "path"
        ≡ (if str_eq "path" "path" then none else Meta.get capture "path"))
take-get_example = take-get capture "path" "path"

abbrev broker : BrokerReconnectConfig
broker = record {
  enabled = true;
  initial_delay_ms = 250;
  max_delay_ms = 30000;
  strategy = BackoffStrategy.exponential;
  multiplier = 2;
  max_attempts = none;
  replay_subscriptions = true;
  queue_requests_while_disconnected = false;
  max_queued_requests = 0;
}

delay_ms_for_attempt-ideal_delay_example :
    delay_ms_for_attempt broker 4 ≡ min (ideal_delay broker 4) broker.max_delay_ms
delay_ms_for_attempt-ideal_delay_example = delay_ms_for_attempt-ideal_delay broker 4 (omega arith)

delay_ms_for_attempt_mono_example :
    (delay_ms_for_attempt broker 4 ≤ delay_ms_for_attempt broker 40)
    × (delay_ms_for_attempt broker 40 ≤ broker.max_delay_ms)
delay_ms_for_attempt_mono_example =
    delay_ms_for_attempt_mono broker 4 40 (omega arith) (omega arith)

fourth_attempt : delay_ms_for_attempt broker 4 ≡ 2000
unfolding delay_ms_for_attempt
fourth_attempt = refl

-- A stream that takes one byte of each buffer; its state is what it took.
abbrev take_one : List ℕ → List ℕ → Result ℕ (Unit {0}) × List ℕ
take_one taken [] = (ok 0, taken)
take_one taken (b ∷ bytes) = (ok 1, taken ++ b ∷ [])

abbrev narrow : Stream (List ℕ)
narrow = record {
  Error = Unit {0};
  closed = tt;
  is_closed = λ e. true;
  debug = λ e. "Closed";
  read = λ s. (ok [], s);
  write = take_one;
  flush = λ s. (ok tt, s);
}

narrow-Writes : Writes narrow (λ s. s)
narrow-Writes s [] count e =
    let counted : 0 ≡ count = cc in
    subst (λ n. (n ≤ 0) × (s ≡ s ++ take n [])) counted (omega arith, sym (append-nil s))
narrow-Writes s (b ∷ bytes) count e =
    let counted : 1 ≡ count = cc in
    subst (λ n. (n ≤ length (b ∷ bytes)) × (s ++ b ∷ [] ≡ s ++ take n (b ∷ bytes))) counted
      (omega arith, refl)

write_all-IsWritten_example :
    IsWritten narrow (λ s. s) (9 ∷ []) (1 ∷ 2 ∷ 3 ∷ []) (write_all narrow (1 ∷ 2 ∷ 3 ∷ []) (9 ∷ []))
write_all-IsWritten_example =
    write_all-IsWritten narrow (λ s. s) narrow-Writes (1 ∷ 2 ∷ 3 ∷ []) (9 ∷ [])

written : write_all narrow (1 ∷ 2 ∷ 3 ∷ []) [] ≡ some (ok tt, 1 ∷ 2 ∷ 3 ∷ [])
unfolding write_all
written = refl

bracketed : format_host_port "fe80::1" 502 ≡ "[fe80::1]:502"
unfolding format_host_port
bracketed = refl

refused_attempt : allows_attempt (record broker { max_attempts = some 3 }) 4 ≡ false
unfolding allows_attempt
refused_attempt = refl
