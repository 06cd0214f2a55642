-- ===== src/Modbus/Frame/Recognise.antt =====
-- How a whole TCP or ASCII frame is told from a part of it.
use ferredge.Prelude.{
  ◌≡◌, refl, ◌∙◌, ap, ℕ, ◌≤◌, ◌<◌, Bool, true, false, String, some, List, [], ◌∷◌, ◌++◌, Result, ok,
  length, length-append, inl, inr, arith,
}
use ferredge.Modbus.Types.{ModbusProto, ascii, tcp_udp}
use ferredge.Modbus.Frame.{
  read_stream_response, min_guess_len, tcp_udp_frame_len, ascii_frame_end, ascii_frame_complete,
  starts_with_colon, max_frame_len, frame_complete, trim_frame, truncate_some,
}
use ferredge.Modbus.Frame.Stream.{Delivers, concat, read_stream_response-first}
use ferredge.Modbus.Frame.Prefixes.{
  frame_len_prefix, frame_len_min, frame_len_append, take-stream, ascii_end_prefix,
  ascii_end_append, ascii_end_max, starts_with_colon-prefix,
}

module _ {E : Type 0} (guess : List ℕ → ModbusProto → Result ℕ E) where
  trim_frame-tcp :
      (xs : List ℕ) → trim_frame guess xs tcp_udp ≡ truncate_some xs (tcp_udp_frame_len xs)
  unfolding trim_frame tcp_udp_frame_len
  trim_frame-tcp [] = refl
  trim_frame-tcp (x ∷ xs) = refl

  trim_frame-ascii :
      (xs : List ℕ) → trim_frame guess xs ascii ≡ truncate_some xs (ascii_frame_end xs)
  unfolding trim_frame ascii_frame_end
  trim_frame-ascii [] = refl
  trim_frame-ascii (x ∷ xs) = refl

module _ {E : Type 0} (guess : List ℕ → ModbusProto → Result ℕ E) (first rest xs ys : List ℕ)
    (e : xs ++ ys ≡ first ++ rest) where
  module _ (h : tcp_udp_frame_len first ≡ some (length first)) where
    streamed : tcp_udp_frame_len (xs ++ ys) ≡ some (length first)
    streamed = ap tcp_udp_frame_len e ∙ frame_len_append first rest (length first) h

    tcp_partial : length xs < length first → frame_complete guess xs tcp_udp ≡ false
    unfolding frame_complete
    tcp_partial short = ground (arith, frame_len_prefix xs ys (length first) streamed)

    tcp_known : length first ≤ length xs → tcp_udp_frame_len xs ≡ some (length first)
    tcp_known whole = ground (
      arith,
      frame_len_prefix xs ys (length first) streamed,
      frame_len_min first (length first) h,
    )

    tcp_complete : length first ≤ length xs → frame_complete guess xs tcp_udp ≡ true
    unfolding frame_complete
    tcp_complete whole = ground (arith, tcp_known whole)

    tcp_trimmed : length first ≤ length xs → trim_frame guess xs tcp_udp ≡ first
    tcp_trimmed whole =
        trim_frame-tcp guess xs
        ∙ ap (truncate_some xs) (tcp_known whole)
        ∙ take-stream xs ys first rest e whole

  module _ (h : ascii_frame_end first ≡ some (length first)) where
    ended : ascii_frame_end (xs ++ ys) ≡ some (length first)
    ended = ap ascii_frame_end e ∙ ascii_end_append first rest (length first) h

    ascii_partial : length xs < length first → frame_complete guess xs ascii ≡ false
    unfolding frame_complete ascii_frame_complete
    ascii_partial short = elim (ascii_end_prefix xs ys (length first) ended) [
      | inl (none_yet, _) ↦ rw (none_yet, ascii_frame_complete) (ground arith)
      | inr found ↦ absurd (omega (arith, ascii_end_max xs (length first) found))
    ]

    ascii_known : length first ≤ length xs → ascii_frame_end xs ≡ some (length first)
    ascii_known whole = ground (arith, ascii_end_prefix xs ys (length first) ended)

    ascii_complete :
        starts_with_colon first ≡ true
        → 7 ≤ length first
        → length first ≤ length xs
        → frame_complete guess xs ascii ≡ true
    unfolding frame_complete ascii_frame_complete min_guess_len
    ascii_complete colon long whole =
        let same = starts_with_colon-prefix xs ys first rest e (omega arith) whole in
        rw (ascii_frame_complete, ascii_known whole, same, colon) (ground arith)

    ascii_trimmed : length first ≤ length xs → trim_frame guess xs ascii ≡ first
    ascii_trimmed whole =
        trim_frame-ascii guess xs
        ∙ ap (truncate_some xs) (ascii_known whole)
        ∙ take-stream xs ys first rest e whole

module _ {E : Type 0} (guess : List ℕ → ModbusProto → Result ℕ E) {S F : Type 0} (noun : String)
    (read : S → Result (List ℕ) F × S) (is_closed : F → Bool) (describe : F → String)
    (first rest : List ℕ) (chunks : List (List ℕ)) (s : S) where
  -- A Modbus TCP frame whose header gives its length is read back exactly, whatever pieces it arrives
  -- in and whatever follows it, as long as all that the peer sends is within 260 bytes.
  pub read_stream_response-tcp :
      tcp_udp_frame_len first ≡ some (length first)
      → length (first ++ rest) ≤ max_frame_len tcp_udp
      → Delivers read s chunks
      → concat chunks ≡ first ++ rest
      → (s' : S) × (read_stream_response guess noun read is_closed describe tcp_udp s
          ≡ some (ok first, s'))
  read_stream_response-tcp h small delivers e =
      read_stream_response-first guess noun read is_closed describe tcp_udp (first ++ rest) first
        (length first)
        (record {
          within = omega (arith, length-append first rest);
          partial = λ xs ys e. tcp_partial guess first rest xs ys e h;
          complete = λ xs ys e. tcp_complete guess first rest xs ys e h;
          trimmed = λ xs ys e. tcp_trimmed guess first rest xs ys e h;
        })
        small (omega (arith, frame_len_min first (length first) h)) chunks s delivers e

  -- An ASCII frame, from its colon to its first line end and of seven characters or more, is read back
  -- exactly, whatever pieces it arrives in, a cut inside its line end included, and whatever follows
  -- it, as long as all that the peer sends is within 515 characters.
  pub read_stream_response-ascii :
      ascii_frame_end first ≡ some (length first)
      → starts_with_colon first ≡ true
      → 7 ≤ length first
      → length (first ++ rest) ≤ max_frame_len ascii
      → Delivers read s chunks
      → concat chunks ≡ first ++ rest
      → (s' : S) × (read_stream_response guess noun read is_closed describe ascii s
          ≡ some (ok first, s'))
  read_stream_response-ascii h colon long small delivers e =
      read_stream_response-first guess noun read is_closed describe ascii (first ++ rest) first
        (length first)
        (record {
          within = omega (arith, length-append first rest);
          partial = λ xs ys e. ascii_partial guess first rest xs ys e h;
          complete = λ xs ys e. ascii_complete guess first rest xs ys e h colon long;
          trimmed = λ xs ys e. ascii_trimmed guess first rest xs ys e h;
        })
        small (omega arith) chunks s delivers e
