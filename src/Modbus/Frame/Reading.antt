-- ===== src/Modbus/Frame/Reading.antt =====
-- The reading loop on every stream: it ends, and never with more than the limit.
use ferredge.Prelude.{
  ◌≡◌, ℕ, zero, suc, ◌+◌, ◌≤◌, ◌<◌, Bool, false, String, Option, none, some, List, [], ◌∷◌, ◌++◌,
  Result, ok, err, length, is_empty, length-append, Result-cases, Bool-cases, inl, inr, arith,
  length-take,
}
use ferredge.Modbus.Types.{ModbusProto, rtu, ascii, tcp_udp}
use ferredge.Modbus.Frame.{
  max_frame_len, trim_frame, truncate_some, read_loop, read_stream_response,
}

truncate_some-length :
    (frame : List ℕ) (n : Option ℕ) → length (truncate_some frame n) ≤ length frame
truncate_some-length frame none = omega arith
truncate_some-length frame (some n) = omega (arith, length-take n frame)

pub trim_frame-length :
    {E : Type 0} (guess : List ℕ → ModbusProto → Result ℕ E) (frame : List ℕ) (proto : ModbusProto)
    → length (trim_frame guess frame proto) ≤ length frame
unfolding trim_frame
trim_frame-length guess [] proto = omega arith
trim_frame-length guess (b ∷ frame) tcp_udp = truncate_some-length (b ∷ frame) _
trim_frame-length guess (b ∷ frame) ascii = truncate_some-length (b ∷ frame) _
trim_frame-length guess (b ∷ frame) rtu = truncate_some-length (b ∷ frame) _

-- An answer: an error or a frame within the limit.
abbrev pub IsAnswer : {S : Type 0} → ModbusProto → Option (Result (List ℕ) String × S) → Type 0
IsAnswer proto none = ⊥
IsAnswer proto (some (ok frame, s)) = length frame ≤ max_frame_len proto
IsAnswer proto (some (err e, s)) = Unit

nonempty-length : (received : List ℕ) → is_empty received ≡ false → 1 ≤ length received
nonempty-length [] h = cc
nonempty-length (b ∷ bs) h = omega arith

module _ {E : Type 0} (guess : List ℕ → ModbusProto → Result ℕ E) {S F : Type 0} (noun : String)
    (read : S → Result (List ℕ) F × S) (is_closed : F → Bool) (describe : F → String) where
  read_loop-IsAnswer :
      (fuel : ℕ) (proto : ModbusProto) (frame : List ℕ) (s : S)
      → max_frame_len proto < length frame + fuel
      → length frame ≤ max_frame_len proto
      → IsAnswer proto (read_loop guess noun read is_closed describe fuel proto frame s)
  unfolding read_loop
  read_loop-IsAnswer zero proto frame s h hle = absurd (omega arith)
  read_loop-IsAnswer (suc fuel) proto frame s h hle = elim (Result-cases (read s).0) [
    | inl (received, eq) ↦
        rw (eq, IsAnswer)
          (elim (Bool-cases (is_empty received)) [
            | inl e ↦ rw (e, IsAnswer) (ground (arith, trim_frame-length guess frame proto))
            | inr e ↦
                rw (e, IsAnswer)
                  (ground (
                    arith,
                    trim_frame-length guess (frame ++ received) proto,
                    length-append frame received,
                    nonempty-length received e,
                    read_loop-IsAnswer fuel proto (frame ++ received) (read s).1,
                  ))
          ])
    | inr (x, eq) ↦ rw (eq, IsAnswer) (ground (arith, trim_frame-length guess frame proto))
  ]

  -- Whatever the port delivers, however it is cut up and however it fails, reading ends within as
  -- many rounds as the limit has bytes and one more, in an error or in a frame that the limit of the
  -- framing holds.
  pub read_stream_response-IsAnswer :
      (proto : ModbusProto) (s : S)
      → IsAnswer proto (read_stream_response guess noun read is_closed describe proto s)
  unfolding read_stream_response
  read_stream_response-IsAnswer proto s =
      read_loop-IsAnswer (suc (max_frame_len proto)) proto [] s (omega arith) (omega arith)
