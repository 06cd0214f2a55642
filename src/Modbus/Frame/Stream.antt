-- ===== src/Modbus/Frame/Stream.antt =====
-- A response that arrives in pieces: what is read is its first whole frame.
use ferredge.Prelude.{
  ◌≡◌, refl, ◌∙◌, ap, ℕ, zero, suc, ◌+◌, ◌≤◌, ◌<◌, Bool, true, false, String, some, List, [], ◌∷◌,
  ◌++◌, Result, ok, length, is_empty, ltb, leb, length-append, Bool-cases, inl, inr, arith,
  append_assoc,
}
use ferredge.Modbus.Types.{ModbusProto}
use ferredge.Modbus.Frame.{
  max_frame_len, frame_complete, trim_frame, read_loop, read_stream_response,
}

nonempty-length : (received : List ℕ) → is_empty received ≡ false → 1 ≤ length received
nonempty-length [] h = cc
nonempty-length (b ∷ bs) h = omega arith

abbrev pub concat : List (List ℕ) → List ℕ
concat [] = []
concat (c ∷ cs) = c ++ concat cs

module _ {S F : Type 0} (read : S → Result (List ℕ) F × S) where
  -- From state `s` on, the port hands over the pieces one by one, none of them empty.
  abbrev pub Delivers : S → List (List ℕ) → Type 0
  Delivers s [] = Unit
  Delivers s (c ∷ cs) = ((read s).0 ≡ ok c) × (is_empty c ≡ false) × Delivers (read s).1 cs

module _ {E : Type 0} (guess : List ℕ → ModbusProto → Result ℕ E) where
  -- Of what begins the stream, just the parts with `n` bytes and more count as complete, and these
  -- are cut to `frame`.
  pub record IsFirstFrame (proto : ModbusProto) (stream frame : List ℕ) (n : ℕ) : Type 0 where
    pub within : n ≤ length stream
    pub partial :
        (xs ys : List ℕ) → xs ++ ys ≡ stream → length xs < n → frame_complete guess xs proto ≡ false
    pub complete :
        (xs ys : List ℕ) → xs ++ ys ≡ stream → n ≤ length xs → frame_complete guess xs proto ≡ true
    pub trimmed :
        (xs ys : List ℕ) → xs ++ ys ≡ stream → n ≤ length xs → trim_frame guess xs proto ≡ frame

module _ {E : Type 0} (guess : List ℕ → ModbusProto → Result ℕ E) {S F : Type 0} (noun : String)
    (read : S → Result (List ℕ) F × S) (is_closed : F → Bool) (describe : F → String)
    (proto : ModbusProto) (stream first : List ℕ) (n : ℕ) where
  read_loop-first :
      IsFirstFrame guess proto stream first n
      → length stream ≤ max_frame_len proto
      → (chunks : List (List ℕ)) (fuel : ℕ) (frame : List ℕ) (s : S) → Delivers read s chunks
      → frame ++ concat chunks ≡ stream
      → length frame < n
      → max_frame_len proto < length frame + fuel
      → (s' : S) × (read_loop guess noun read is_closed describe fuel proto frame s
          ≡ some (ok first, s'))
  unfolding read_loop
  read_loop-first is small [] fuel frame s delivers e before enough =
      absurd (omega (arith, is.within, length-append frame [], ap length e))
  read_loop-first is small (c ∷ cs) zero frame s delivers e before enough =
      absurd (omega (arith, is.within, length-append frame (c ++ concat cs), ap length e))
  read_loop-first is small (c ∷ cs) (suc fuel) frame s (got, full, later) e before enough =
      let joined : (frame ++ c) ++ concat cs ≡ stream = append_assoc frame c (concat cs) ∙ e in
      let size : length (frame ++ c) ≡ length frame + length c = length-append frame c in
      let fits : ltb (max_frame_len proto) (length frame + length c) ≡ false =
        ground (arith, length-append (frame ++ c) (concat cs), ap length joined) in
      elim (Bool-cases (leb n (length (frame ++ c)))) [
        | inl reached ↦
            let whole : n ≤ length (frame ++ c) = ground arith in
            (
              (read s).1,
              rw
                  (
                    got,
                    read_loop,
                    full,
                    fits,
                    is.complete (frame ++ c) (concat cs) joined whole,
                    is.trimmed (frame ++ c) (concat cs) joined whole,
                  )
                  refl,
            )
        | inr short ↦
            let part : length (frame ++ c) < n = ground arith in
            let ih =
              read_loop-first is small cs fuel (frame ++ c) (read s).1 later joined part
                (omega (arith, nonempty-length c full)) in
            (
              ih.0,
              rw (got, read_loop, full, fits, is.partial (frame ++ c) (concat cs) joined part) ih.1,
            )
      ]

  -- Whatever its pieces, a stream within the limit that begins with a whole frame is read as this
  -- frame, and the rounds are enough.
  pub read_stream_response-first :
      IsFirstFrame guess proto stream first n
      → length stream ≤ max_frame_len proto
      → 1 ≤ n
      → (chunks : List (List ℕ)) (s : S) → Delivers read s chunks
      → concat chunks ≡ stream
      → (s' : S) × (read_stream_response guess noun read is_closed describe proto s
          ≡ some (ok first, s'))
  unfolding read_stream_response
  read_stream_response-first is small pos chunks s delivers e =
      read_loop-first is small chunks (suc (max_frame_len proto)) [] s delivers e (omega arith)
        (omega arith)
