-- ===== src/Core/Net/WriteAll.antt =====
-- Writing a whole buffer by short writes.
use ferredge.Prelude.{
  ◌≡◌, refl, sym, ap, ◌∙◌, ℕ, zero, suc, ◌≤◌, List, [], ◌∷◌, ◌++◌, Option, none, some, Result, ok,
  err, length, take, drop, ◌==◌, length-drop, append-nil, append_assoc, Result-cases, Bool-cases,
  inl, inr, arith,
}
use ferredge.Core.Net.{Stream, write_loop, write_all}

-- There is an answer.
abbrev pub IsAnswered : {A : Type 0} → Option A → Type 0
IsAnswered none = ⊥
IsAnswered (some a) = Unit

module _ {S : Type 0} (stream : Stream S) where
  -- Writing ends for every stream, whatever counts it gives.
  pub write_loop-ends :
      (fuel : ℕ) (bytes : List ℕ) (s : S)
      → length bytes ≤ fuel
      → IsAnswered (write_loop stream fuel bytes s)
  unfolding write_loop
  write_loop-ends zero [] s enough = tt
  write_loop-ends (suc fuel) [] s enough = tt
  write_loop-ends zero (b ∷ bytes) s enough = absurd (omega arith)
  write_loop-ends (suc fuel) (b ∷ bytes) s enough =
      elim (Result-cases (stream.write s (b ∷ bytes)).0) [
        | inr (x, e) ↦ rw (e, IsAnswered) tt
        | inl (count, e) ↦ elim (Bool-cases (count == 0)) [
          | inl none_written ↦ rw (e, none_written, IsAnswered) tt
          | inr some_written ↦
              let shorter : length (drop count (b ∷ bytes)) ≤ fuel =
                ground (arith, length-drop count (b ∷ bytes)) in
              rw (e, some_written, write_loop)
                (write_loop-ends fuel (drop count (b ∷ bytes)) (stream.write s (b ∷ bytes)).1
                  shorter)
        ]
      ]

take-drop : (n : ℕ) (bytes : List ℕ) → take n bytes ++ drop n bytes ≡ bytes
take-drop zero bytes = refl
take-drop (suc n) [] = refl
take-drop (suc n) (b ∷ bytes) = ap (λ t. b ∷ t) (take-drop n bytes)

module _ {S : Type 0} (stream : Stream S) (sent : S → List ℕ) where
  -- What the traits document of `write`: it gives the number of bytes written, which are the first of
  -- the buffer.
  abbrev pub Writes : Type 0
  Writes =
      (s : S) (bytes : List ℕ) (count : ℕ)
      → (stream.write s bytes).0 ≡ ok count
      → (count ≤ length bytes) × (sent (stream.write s bytes).1 ≡ sent s ++ take count bytes)

  -- All is written, or writing failed.
  abbrev pub IsWritten : S → List ℕ → Option (Result (Unit {0}) stream.Error × S) → Type 0
  IsWritten s bytes none = ⊥
  IsWritten s bytes (some (ok _, s')) = sent s' ≡ sent s ++ bytes
  IsWritten s bytes (some (err _, _)) = Unit

  resumed :
      (s s' : S) (bytes : List ℕ) (count : ℕ) (answer : Option (Result (Unit {0}) stream.Error × S))
      → sent s' ≡ sent s ++ take count bytes
      → IsWritten s' (drop count bytes) answer
      → IsWritten s bytes answer
  resumed s s' bytes count none e written = written
  resumed s s' bytes count (some (err x, t)) e written = tt
  resumed s s' bytes count (some (ok u, t)) e written =
      written
      ∙ ap (λ l. l ++ drop count bytes) e
      ∙ append_assoc (sent s) (take count bytes) (drop count bytes)
      ∙ ap (λ l. sent s ++ l) (take-drop count bytes)

  write_loop-IsWritten :
      Writes
      → (fuel : ℕ) (bytes : List ℕ) (s : S) → length bytes ≤ fuel
      → IsWritten s bytes (write_loop stream fuel bytes s)
  unfolding write_loop
  write_loop-IsWritten writes zero [] s enough = sym (append-nil (sent s))
  write_loop-IsWritten writes (suc fuel) [] s enough = sym (append-nil (sent s))
  write_loop-IsWritten writes zero (b ∷ bytes) s enough = absurd (omega arith)
  write_loop-IsWritten writes (suc fuel) (b ∷ bytes) s enough =
      elim (Result-cases (stream.write s (b ∷ bytes)).0) [
        | inr (x, e) ↦ rw (e, IsWritten) tt
        | inl (count, e) ↦ elim (Bool-cases (count == 0)) [
          | inl none_written ↦ rw (e, none_written, IsWritten) tt
          | inr some_written ↦
              let (few, written) = writes s (b ∷ bytes) count e in
              let shorter : length (drop count (b ∷ bytes)) ≤ fuel =
                ground (arith, length-drop count (b ∷ bytes)) in
              let rest =
                write_loop-IsWritten writes fuel (drop count (b ∷ bytes))
                  (stream.write s (b ∷ bytes)).1 shorter in
              rw (e, some_written, write_loop) (resumed s _ (b ∷ bytes) count _ written rest)
        ]
      ]

  -- Over a stream that writes what it counts, `write_all` ends within as many rounds as bytes, and
  -- if it does not fail, what was sent before is followed by the whole buffer, once and in order.
  pub write_all-IsWritten :
      Writes → (buf : List ℕ) (s : S) → IsWritten s buf (write_all stream buf s)
  unfolding write_all
  write_all-IsWritten writes buf s = write_loop-IsWritten writes (length buf) buf s (omega arith)
