-- ===== src/Modbus/Frame/Prefixes.antt =====
-- The frame lengths of a stream and of its prefixes.
use ferredge.Prelude.{
  ◌≡◌, refl, sym, ◌∙◌, ap, ℕ, ◌≤◌, ◌<◌, none, some, List, [], ◌∷◌, ◌++◌, length, take, ◌==◌,
  take-append_le, ◌⊎◌, inl, inr, Option-cases, take_all, arith,
}
use ferredge.Modbus.Frame.{tcp_udp_frame_len, ascii_frame_end, starts_with_colon}

-- The header is in the first six bytes, and a prefix without them has none.
pub frame_len_prefix :
    (xs ys : List ℕ) (n : ℕ)
    → tcp_udp_frame_len (xs ++ ys) ≡ some n
    → (tcp_udp_frame_len xs ≡ none) × (length xs < 6) ⊎ (tcp_udp_frame_len xs ≡ some n)
unfolding tcp_udp_frame_len
frame_len_prefix [] ys n h = inl (refl, omega arith)
frame_len_prefix (a ∷ []) ys n h = inl (refl, omega arith)
frame_len_prefix (a ∷ b ∷ []) ys n h = inl (refl, omega arith)
frame_len_prefix (a ∷ b ∷ c ∷ []) ys n h = inl (refl, omega arith)
frame_len_prefix (a ∷ b ∷ c ∷ d ∷ []) ys n h = inl (refl, omega arith)
frame_len_prefix (a ∷ b ∷ c ∷ d ∷ e ∷ []) ys n h = inl (refl, omega arith)
frame_len_prefix (a ∷ b ∷ c ∷ d ∷ e ∷ f ∷ xs) ys n h = inr h

pub frame_len_min : (xs : List ℕ) (n : ℕ) → tcp_udp_frame_len xs ≡ some n → 6 ≤ n
unfolding tcp_udp_frame_len
frame_len_min [] n h = cc
frame_len_min (a ∷ []) n h = cc
frame_len_min (a ∷ b ∷ []) n h = cc
frame_len_min (a ∷ b ∷ c ∷ []) n h = cc
frame_len_min (a ∷ b ∷ c ∷ d ∷ []) n h = cc
frame_len_min (a ∷ b ∷ c ∷ d ∷ e ∷ []) n h = cc
frame_len_min (a ∷ b ∷ c ∷ d ∷ e ∷ f ∷ xs) n h = ground arith

pub frame_len_append :
    (xs ys : List ℕ) (n : ℕ) → tcp_udp_frame_len xs ≡ some n → tcp_udp_frame_len (xs ++ ys) ≡ some n
unfolding tcp_udp_frame_len
frame_len_append [] ys n h = cc
frame_len_append (a ∷ []) ys n h = cc
frame_len_append (a ∷ b ∷ []) ys n h = cc
frame_len_append (a ∷ b ∷ c ∷ []) ys n h = cc
frame_len_append (a ∷ b ∷ c ∷ d ∷ []) ys n h = cc
frame_len_append (a ∷ b ∷ c ∷ d ∷ e ∷ []) ys n h = cc
frame_len_append (a ∷ b ∷ c ∷ d ∷ e ∷ f ∷ xs) ys n h = h

pub take-stream :
    (xs ys first rest : List ℕ)
    → xs ++ ys ≡ first ++ rest
    → length first ≤ length xs
    → take (length first) xs ≡ first
take-stream xs ys first rest e whole =
    sym (take-append_le (length first) xs ys whole)
    ∙ ap (take (length first)) e
    ∙ take-append_le (length first) first rest (omega arith)
    ∙ take_all (length first) first (omega arith)

pub ascii_end_min : (xs : List ℕ) (n : ℕ) → ascii_frame_end xs ≡ some n → 2 ≤ n
unfolding ascii_frame_end
ascii_end_min [] n h = cc
ascii_end_min (a ∷ []) n h = cc
ascii_end_min (a ∷ b ∷ xs) n h = ground (arith, ascii_end_min (b ∷ xs))

pub ascii_end_max : (xs : List ℕ) (n : ℕ) → ascii_frame_end xs ≡ some n → n ≤ length xs
unfolding ascii_frame_end
ascii_end_max [] n h = cc
ascii_end_max (a ∷ []) n h = cc
ascii_end_max (a ∷ b ∷ xs) n h = elim (Option-cases (ascii_frame_end (b ∷ xs))) [
  | inl e ↦ ground arith
  | inr (m, e) ↦ ground (arith, ascii_end_max (b ∷ xs) m e)
]

pub starts_with_colon-prefix :
    (xs ys first rest : List ℕ)
    → xs ++ ys ≡ first ++ rest
    → 1 ≤ length first
    → length first ≤ length xs
    → starts_with_colon xs ≡ starts_with_colon first
starts_with_colon-prefix xs ys [] rest e pos whole = absurd (omega arith)
starts_with_colon-prefix [] ys (f ∷ fs) rest e pos whole = absurd (omega arith)
starts_with_colon-prefix (x ∷ xs) ys (f ∷ fs) rest e pos whole =
    let heads : x ≡ f = cc in ap (λ b. b == 58) heads

pub ascii_end_prefix :
    (xs ys : List ℕ) (n : ℕ)
    → ascii_frame_end (xs ++ ys) ≡ some n
    → (ascii_frame_end xs ≡ none) × (length xs < n) ⊎ (ascii_frame_end xs ≡ some n)
unfolding ascii_frame_end
ascii_end_prefix [] ys n h = inl (refl, omega (arith, ascii_end_min ys n h))
ascii_end_prefix (a ∷ []) ys n h = inl (refl, omega (arith, ascii_end_min (a ∷ ys) n h))
ascii_end_prefix (a ∷ b ∷ xs) ys n h = elim (Option-cases (ascii_frame_end (b ∷ xs ++ ys))) [
  | inl e ↦ ground arith
  | inr (m, e) ↦ ground (arith, ascii_end_prefix (b ∷ xs) ys m e)
]

pub ascii_end_append :
    (xs ys : List ℕ) (n : ℕ) → ascii_frame_end xs ≡ some n → ascii_frame_end (xs ++ ys) ≡ some n
unfolding ascii_frame_end
ascii_end_append [] ys n h = cc
ascii_end_append (a ∷ []) ys n h = cc
ascii_end_append (a ∷ b ∷ xs) ys n h = elim (Option-cases (ascii_frame_end (b ∷ xs))) [
  | inl e ↦ ground arith
  | inr (m, e) ↦ ground (arith, ascii_end_append (b ∷ xs) ys m e)
]
