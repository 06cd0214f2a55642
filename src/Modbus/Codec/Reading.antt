-- ===== src/Modbus/Codec/Reading.antt =====
-- What is read of a response.
use ferredge.Prelude.{
  ◌≡◌, refl, ap, ◌∙◌, ℕ, zero, suc, ◌+◌, false, String, Option, some, List, [], ◌∷◌, ◌++◌, ok,
  length, get_elem?, take, drop, ltb, ◌==◌, length-append, take-append_le, take_all, Bool-cases,
  inl, inr, arith,
}
use ferredge.Modbus.Types.{ModbusProto, ModbusRequest, ModbusDevice, ModbusNativePlan}
use ferredge.Modbus.Rmodbus.{Rmodbus}
use ferredge.Modbus.Convert.Seeded.{Replays, encode_ref-Replays}
use ferredge.Modbus.Convert.Build.{encode_ref}
use ferredge.Modbus.Codec.{
  keep_byte, trim_trailing_nuls, count_index, response_data_slice, make_parser,
}

get_elem?-after :
    (before : List ℕ) (x : ℕ) (after : List ℕ)
    → get_elem? (before ++ x ∷ after) (length before) ≡ some x
get_elem?-after [] x after = refl
get_elem?-after (b ∷ before) x after = get_elem?-after before x after

drop-after :
    (before after : List ℕ) (x : ℕ) → drop (suc (length before)) (before ++ x ∷ after) ≡ after
drop-after [] after x = refl
drop-after (b ∷ before) after x = drop-after before after x

take-front : (front rest : List ℕ) → take (length front) (front ++ rest) ≡ front
take-front front rest =
    take-append_le (length front) front rest (omega arith)
    ∙ take_all (length front) front (omega arith)

-- A frame with the framing's header, a byte count, that many bytes and anything behind them gives
-- exactly those bytes.
pub response_data_slice-framed :
    (framing : ModbusProto) (header body rest : List ℕ)
    → length header ≡ count_index framing
    → response_data_slice framing (header ++ length body ∷ (body ++ rest)) ≡ ok body
unfolding response_data_slice
response_data_slice-framed framing header body rest h =
    let count : get_elem? (header ++ length body ∷ (body ++ rest)) (count_index framing)
        ≡ some (length body) =
      rw (← h) (get_elem?-after header (length body) (body ++ rest)) in
    let index : count_index framing + 1 ≡ suc (length header) = omega arith in
    let enough : ltb (length (header ++ length body ∷ (body ++ rest)))
          (suc (length header) + length body)
        ≡ false =
      ground
        (arith, length-append header (length body ∷ (body ++ rest)), length-append body rest) in
    rw
      (
        response_data_slice,
        count,
        index,
        enough,
        drop-after header (body ++ rest) (length body),
        take-front body rest,
      )
      refl

abbrev pub LastNonzero : List ℕ → Type 0
LastNonzero [] = Unit
LastNonzero (b ∷ []) = (b == 0) ≡ false
LastNonzero (b ∷ c ∷ bs) = LastNonzero (c ∷ bs)

abbrev pub nuls : ℕ → List ℕ
nuls zero = []
nuls (suc n) = 0 ∷ nuls n

keep_byte-nuls :
    (b : ℕ) (kept bs : List ℕ) (n : ℕ)
    → kept ++ nuls n ≡ bs
    → LastNonzero kept
    → ((m : ℕ) × (keep_byte b kept ++ nuls m ≡ b ∷ bs)) × LastNonzero (keep_byte b kept)
keep_byte-nuls b [] bs n e last = elim (Bool-cases (b == 0)) [
  | inl zeroed ↦ let z : 0 ≡ b = ground arith in rw zeroed ((suc n, λ i. z i ∷ e i), tt)
  | inr kept ↦ rw kept ((n, ap (λ t. b ∷ t) e), kept)
]
keep_byte-nuls b (k ∷ kept) bs n e last = ((n, ap (λ t. b ∷ t) e), last)

-- Only nuls are cut off the end, and all of them.
pub trim_trailing_nuls_lem :
    (bytes : List ℕ)
    → ((n : ℕ) × (trim_trailing_nuls bytes ++ nuls n ≡ bytes))
      × LastNonzero (trim_trailing_nuls bytes)
unfolding trim_trailing_nuls
trim_trailing_nuls_lem [] = ((0, refl), tt)
trim_trailing_nuls_lem (b ∷ bs) =
    let ((n, e), last) = trim_trailing_nuls_lem bs in
    keep_byte-nuls b (trim_trailing_nuls bs) bs n e last

-- For every request that `encode_ref` builds, the parser of its response is made without an error, by
-- the call that made the request's frame.
pub make_parser-Replays :
    (rm : Rmodbus) (from_utf8 : List ℕ → Option String) {P : Type 0} (device : ModbusDevice P)
    (planned : ModbusNativePlan) (r : ModbusRequest)
    → encode_ref rm device planned ≡ ok r
    → (replays : Replays rm r) × (make_parser rm from_utf8 r.proto r.unit_id r.parser_seed
        ≡ ok replays.0)
unfolding make_parser
make_parser-Replays rm from_utf8 device planned r built =
    let (parser, binary_frame, made, sent) = encode_ref-Replays rm device planned r built in
    ((parser, binary_frame, made, sent), rw made refl)
