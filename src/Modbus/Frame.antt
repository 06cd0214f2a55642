-- ===== src/Modbus/Frame.antt =====
-- crates/ferredge-proto-modbus/src/transport.rs: frame lengths, completion and trimming, and the
-- loop that reads a response from a stream socket or a serial port.
pub mod Reading
pub mod Stream
pub mod Prefixes
pub mod Recognise
use ferredge.Prelude.{
  ℕ, zero, suc, ◌+◌, ◌*◌, Bool, true, false, not, ◌&&◌, ◌||◌, String, Option, none, some, List, [],
  ◌∷◌, ◌++◌, Result, ok, err, length, take, is_empty, ltb, leb, ◌==◌, if◌then◌else◌, map_option,
  unwrap_or, ok_option, str_append, to_decimal,
}
use ferredge.Modbus.Types.{ModbusProto, rtu, ascii, tcp_udp}

unfoldable pub min_guess_len : ModbusProto → ℕ
min_guess_len tcp_udp = 6
min_guess_len rtu = 5
min_guess_len ascii = 7

-- 260, 256 and twice 256 with the three characters around it.
unfoldable pub max_frame_len : ModbusProto → ℕ
max_frame_len tcp_udp = 260
max_frame_len rtu = 256
max_frame_len ascii = 256 * 2 + 3

-- Six bytes are there exactly when the first clause applies.
unfoldable pub tcp_udp_frame_len : List ℕ → Option ℕ
tcp_udp_frame_len (_ ∷ _ ∷ p ∷ p' ∷ l ∷ l' ∷ _) =
    if not (p * 256 + p' == 0) then none else some (l * 256 + l' + 6)
tcp_udp_frame_len _ = none

-- The end of the first "\r\n".
unfoldable pub ascii_frame_end : List ℕ → Option ℕ
ascii_frame_end (a ∷ b ∷ frame) =
    let later = ascii_frame_end (b ∷ frame) in
    if a == 13 && b == 10 then some 2 else map_option suc later
ascii_frame_end _ = none

-- `frame.starts_with(b":")`.
abbrev pub starts_with_colon : List ℕ → Bool
starts_with_colon (b ∷ _) = b == 58
starts_with_colon [] = false

-- `Option::is_some_and` and `map(..).unwrap_or(false)`.
abbrev pub is_some_and {ℓ} : {A : Type ℓ} → (A → Bool) → Option A → Bool
is_some_and p none = false
is_some_and p (some a) = p a

unfoldable pub ascii_frame_complete : List ℕ → Bool
unfolding ascii_frame_end min_guess_len
ascii_frame_complete frame =
    starts_with_colon frame
    && is_some_and (λ frame_end. leb (min_guess_len ascii) frame_end) (ascii_frame_end frame)

-- `Vec::truncate`, which leaves a vector that is short enough.
abbrev pub truncate : List ℕ → ℕ → List ℕ
truncate frame n = take n frame

abbrev pub truncate_some : List ℕ → Option ℕ → List ℕ
truncate_some frame none = frame
truncate_some frame (some n) = truncate frame n

-- `guess` is `rmodbus::guess_response_frame_len`.
module _ {E : Type 0} (guess : List ℕ → ModbusProto → Result ℕ E) where
  unfoldable pub frame_complete : List ℕ → ModbusProto → Bool
  unfolding tcp_udp_frame_len ascii_frame_complete min_guess_len
  frame_complete frame tcp_udp =
      is_some_and (λ expected_len. leb expected_len (length frame)) (tcp_udp_frame_len frame)
  frame_complete frame ascii = ascii_frame_complete frame
  frame_complete frame rtu =
      leb (min_guess_len rtu) (length frame)
      && is_some_and (λ expected_len. leb expected_len (length frame)) (ok_option (guess frame rtu))

  unfoldable pub trim_frame : List ℕ → ModbusProto → List ℕ
  unfolding tcp_udp_frame_len ascii_frame_end
  trim_frame [] proto = []
  trim_frame frame tcp_udp = truncate_some frame (tcp_udp_frame_len frame)
  trim_frame frame ascii = truncate_some frame (ascii_frame_end frame)
  trim_frame frame rtu = truncate_some frame (ok_option (guess frame rtu))

-- The two functions differ in the port's error type and in the noun of their messages.
module _ {E : Type 0} (guess : List ℕ → ModbusProto → Result ℕ E) {S F : Type 0} (noun : String)
    (read : S → Result (List ℕ) F × S) (is_closed : F → Bool) (describe : F → String) where
  abbrev pub read_failure : String → String
  read_failure detail =
      str_append (str_append (str_append "failed to read Modbus " noun) " response: ") detail

  abbrev pub frame_exceeded : ModbusProto → String
  frame_exceeded proto =
      read_failure
        (str_append (str_append "frame exceeded " (to_decimal (max_frame_len proto))) " bytes")

  -- Each round reads into a buffer of 64 bytes; without fuel there is no answer.
  unfoldable pub read_loop : ℕ → ModbusProto → List ℕ → S → Option (Result (List ℕ) String × S)
  unfolding frame_complete trim_frame max_frame_len to_decimal
  read_loop zero proto frame s = none
  read_loop (suc fuel) proto frame s =
      let (outcome, s') = read s in
      elim outcome [
        | err e ↦
            if is_closed e && not (is_empty frame)
            then some (ok (trim_frame guess frame proto), s')
            else some (err (read_failure (describe e)), s')
        | ok received ↦
            let frame' = frame ++ received in
            let rest = read_loop fuel proto frame' s' in
            if is_empty received
            then if is_empty frame
              then some (err (read_failure "Closed"), s')
              else some (ok (trim_frame guess frame proto), s')
            else if ltb (max_frame_len proto) (length frame + length received)
            then some (err (frame_exceeded proto), s')
            else if frame_complete guess frame' proto
            then some (ok (trim_frame guess frame' proto), s')
            else rest
      ]

  -- A round that goes on adds a byte, so one round more than the limit is enough.
  unfoldable pub read_stream_response : ModbusProto → S → Option (Result (List ℕ) String × S)
  unfolding read_loop
  read_stream_response proto s = read_loop (suc (max_frame_len proto)) proto [] s
