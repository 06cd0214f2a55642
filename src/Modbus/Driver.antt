-- ===== src/Modbus/Driver.antt =====
-- crates/ferredge-proto-modbus/src/transport.rs: the `ModbusTransport` interface and the driver's
-- attempts over it.
pub mod Attempts
use ferredge.Prelude.{
  ℕ, zero, suc, ◌+◌, Bool, true, not, ◌||◌, String, Option, none, some, List, Result, ok, err,
  ◌>>=◌, leb, if◌then◌else◌, unwrap_or, starts_with,
}
use ferredge.Core.Device.{Device}
use ferredge.Modbus.Types.{
  ModbusEndpoint, ModbusDevice, ModbusRequest, ModbusResponse, ModbusReconnectConfig, options,
}
use ferredge.Modbus.Reconnect.{request_attempt_budget, delay_for_attempt}

unfoldable pub is_retryable_transport_error : String → Bool
is_retryable_transport_error error =
    starts_with error "failed to connect "
    || starts_with error "failed to bind "
    || starts_with error "failed to open "
    || starts_with error "failed to send "
    || starts_with error "failed to write "
    || starts_with error "failed to flush "
    || starts_with error "failed to read "

-- The trait: `W` is what the transport acts on, `P` the serial line's configuration.
pub record ModbusTransport (P W : Type 0) : Type 1 where
  pub Session : Type 0
  pub exchange :
      ModbusEndpoint P
      → ModbusRequest
      → Option Session
      → W
      → Result (List ℕ) String × Option Session × W
  pub close : Session → W → W

-- `lock` is whether the runtime's mutex can be taken, `sleep` the runtime's timer.
module _ {P W : Type 0} (transport : ModbusTransport P W) (lock : W → Bool) (sleep : ℕ → W → W)
    (device : ModbusDevice P) (request : ModbusRequest) where
  abbrev pub pause : Option ℕ → W → W
  pause none w = w
  pause (some delay) w = sleep delay w

  -- The attempts left of `for attempt in 0..max_attempts`.
  unfoldable pub attempts_loop :
      ℕ
      → ℕ
      → ℕ
      → Option String
      → Option transport.Session
      → W
      → Result (List ℕ) String × Option transport.Session × W
  attempts_loop zero attempt max_attempts last_error session w =
      (err (unwrap_or last_error "Modbus execute failed"), session, w)
  attempts_loop (suc left) attempt max_attempts last_error session w =
      let (outcome, session', w') = transport.exchange device.endpoint request session w in
      elim outcome [
        | ok frame ↦ (ok frame, session', w')
        | err error ↦
            let w'' =
              pause (delay_for_attempt (options device.endpoint).reconnect (attempt + 1)) w' in
            let rest = attempts_loop left (attempt + 1) max_attempts (some error) session' w'' in
            if leb max_attempts (attempt + 1) || not (is_retryable_transport_error error)
            then (err error, session', w')
            else rest
      ]

  unfoldable pub execute_on_endpoint :
      Option transport.Session → W → Result (List ℕ) String × Option transport.Session × W
  execute_on_endpoint session w =
      let max_attempts =
        request_attempt_budget (options device.endpoint).reconnect request.is_write in
      if lock w
      then attempts_loop max_attempts 0 max_attempts none session w
      else (err "failed to lock Modbus persistent session", session, w)

  -- `build_modbus_response`, which cannot fail.
  abbrev pub build_modbus_response : List ℕ → Result ModbusResponse String
  build_modbus_response raw_frame = ok (record {
    frame = raw_frame;
    proto = request.proto;
    unit_id = request.unit_id;
    parser_seed = request.parser_seed;
    decoder = request.decoder;
  })

  unfoldable pub execute :
      Option transport.Session → W → Result ModbusResponse String × Option transport.Session × W
  execute session w =
      let (outcome, session', w') = execute_on_endpoint session w in
      (outcome >>= build_modbus_response, session', w')

module _ {P W : Type 0} (transport : ModbusTransport P W) (lock : W → Bool) where
  unfoldable pub close_persistent_session :
      Option transport.Session → W → Result (Unit {0}) String × Option transport.Session × W
  close_persistent_session session w =
      if lock w
      then elim session [
        | none ↦ (ok tt, none, w)
        | some live ↦ (ok tt, none, transport.close live w)
      ]
      else (err "failed to lock Modbus persistent session", session, w)
