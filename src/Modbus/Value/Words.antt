-- ===== src/Modbus/Value/Words.antt =====
-- The words of 32-bit values, and the values they stand for.
use ferredge.Prelude.{◌≡◌, refl, ℕ, ◌+◌, ◌*◌, ◌/◌, ◌%◌, ◌^◌, ◌<◌, List, [], ◌∷◌, All, arith}
use ferredge.Modbus.Value.{words_be, words_le, byte, from_be_bytes}

-- The high word first, as it stands or with the bytes of each word exchanged.
abbrev pub value_be : ℕ → ℕ → ℕ
value_be high low = high * 65536 + low

abbrev pub exchanged : ℕ → ℕ
exchanged word = word % 256 * 256 + word / 256

abbrev pub value_le : ℕ → ℕ → ℕ
value_le high low = exchanged high * 65536 + exchanged low

abbrev pub values_from : (ℕ → ℕ → ℕ) → List ℕ → List ℕ
values_from value (high ∷ low ∷ words) = value high low ∷ values_from value words
values_from value _ = []

-- No 32-bit value is lost: two words stand for each, high word first, and for the `Le` codecs each
-- word's bytes are exchanged; all words fit 16 bits.
pub words_be-words_le :
    (values : List ℕ)
    → All (λ value. value < 2 ^ 32) values
    → (values_from value_be (words_be values) ≡ values)
      × (values_from value_le (words_le values) ≡ values)
      × All (λ word. word < 2 ^ 16) (words_be values)
      × All (λ word. word < 2 ^ 16) (words_le values)
unfolding words_be words_le
words_be-words_le [] fits = (refl, refl, tt, tt)
words_be-words_le (value ∷ values) (fit, fits) =
    let (be, le, small_be, small_le) = words_be-words_le values fits in
    let v : value_be (from_be_bytes (byte 3 value) (byte 2 value))
          (from_be_bytes (byte 1 value) (byte 0 value))
        ≡ value =
      omega arith in
    let w : value_le (from_be_bytes (byte 2 value) (byte 3 value))
          (from_be_bytes (byte 0 value) (byte 1 value))
        ≡ value =
      omega arith in
    (
      (λ i. v i ∷ be i),
      (λ i. w i ∷ le i),
      (omega arith, (omega arith, small_be)),
      (omega arith, (omega arith, small_le)),
    )
