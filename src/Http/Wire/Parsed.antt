-- ===== src/Http/Wire/Parsed.antt =====
-- What a parsed response is.
use Prim.Native.Char.{code}
use ferredge.Prelude.{
  eq_ignore_ascii_case, ◌-◌, and_then, ◌==◌, ◌≡◌, refl, sym, ap, ◌∙◌, ℕ, suc, ◌+◌, ◌≤◌, ◌<◌, ◌^◌,
  Bool, true, false, String, Option, none, some, List, [], ◌∷◌, ◌++◌, Result, ok, err, length, take,
  drop, leb, Bool-cases, inl, inr, arith, map_option, if◌then◌else◌, subst,
}
use ferredge.Http.Types.{HttpResponse}
use ferredge.Http.Wire.{
  checked, status_or_invalid, with_status, after_head, headers_of, HttpTransportError,
  at_terminator, header_end_of, too_short, expected_len, response_of, parse_response,
}
use ferredge.Http.WireText.{second_word, within, parse_uint, lines_of}

-- The first header named Content-Length, in any case, whose value is a number of 64 bits has `n`.
pub data IsContentLength : List (String × String) → ℕ → Type 0 where
  here :
      (name value : String) (headers : List (String × String)) (n : ℕ)
      → eq_ignore_ascii_case name "content-length" ≡ true
      → parse_uint (2 ^ 64 - 1) value ≡ some n
      → IsContentLength ((name, value) ∷ headers) n
  other_name :
      (name value : String) (headers : List (String × String)) (n : ℕ)
      → eq_ignore_ascii_case name "content-length" ≡ false
      → IsContentLength headers n
      → IsContentLength ((name, value) ∷ headers) n
  no_number :
      (name value : String) (headers : List (String × String)) (n : ℕ)
      → parse_uint (2 ^ 64 - 1) value ≡ none
      → IsContentLength headers n
      → IsContentLength ((name, value) ∷ headers) n

expected_len-IsContentLength :
    (headers : List (String × String)) (n : ℕ)
    → IsContentLength headers n
    → expected_len headers ≡ some n
unfolding expected_len
expected_len-IsContentLength _ _ (here name value headers n named number) = rw (named, number) refl
expected_len-IsContentLength _ _ (other_name name value headers n other later) =
    rw other (expected_len-IsContentLength headers n later)
expected_len-IsContentLength _ _ (no_number name value headers n none_there later) =
    elim (Bool-cases (eq_ignore_ascii_case name "content-length")) [
      | inl named ↦ rw (named, none_there) (expected_len-IsContentLength headers n later)
      | inr other ↦ rw other (expected_len-IsContentLength headers n later)
    ]

-- No blank line starts before the one that is found.
header_end-first :
    (front rest : List ℕ)
    → (k : ℕ) × (header_end_of (front ++ 13 ∷ 10 ∷ 13 ∷ 10 ∷ rest) ≡ some k) × (k ≤ length front)
unfolding header_end_of
header_end-first [] rest = (0, refl, omega arith)
header_end-first (byte ∷ front) rest =
    let (k, found, before) = header_end-first front rest in
    elim (Bool-cases (at_terminator (byte ∷ (front ++ 13 ∷ 10 ∷ 13 ∷ 10 ∷ rest)))) [
      | inl starts ↦ (0, rw starts refl, omega arith)
      | inr goes_on ↦ (suc k, rw (goes_on, found) refl, omega (arith, before))
    ]

first_found :
    (bytes front rest : List ℕ) (n : ℕ)
    → header_end_of bytes ≡ some n
    → bytes ≡ front ++ 13 ∷ 10 ∷ 13 ∷ 10 ∷ rest
    → n ≤ length front
first_found bytes front rest n found e =
    let (k, at, before) = header_end-first front rest in
    let same : some n ≡ some k = sym found ∙ ap header_end_of e ∙ at in
    let equal : n ≡ k = cc in omega (arith, before, equal)

-- The response is in the bytes: a head, the first blank line, and all the rest as its body, which is
-- as long as the first Content-Length says or longer.
pub record IsParsed (bytes : List ℕ) (response : HttpResponse) : Type 0 where
  pub head : List ℕ
  pub in_bytes : bytes ≡ head ++ 13 ∷ 10 ∷ 13 ∷ 10 ∷ response.body
  pub first :
      (front rest : List ℕ) → bytes ≡ front ++ 13 ∷ 10 ∷ 13 ∷ 10 ∷ rest → length head ≤ length front
  pub long_enough : (n : ℕ) → IsContentLength response.headers n → n ≤ length response.body
  pub status_fits : response.status_code < 2 ^ 16

abbrev value_or : {A E : Type 0} → A → Result A E → A
value_or a (ok b) = b
value_or a (err e) = a

ok_value : {A E : Type 0} {a b : A} (r s : Result A E) → r ≡ ok a → s ≡ ok b → r ≡ s → a ≡ b
ok_value {a = a} r s h k e = sym (ap (value_or a) h) ∙ ap (value_or a) e ∙ ap (value_or a) k

at_terminator-split :
    (bytes : List ℕ) → at_terminator bytes ≡ true → bytes ≡ 13 ∷ 10 ∷ 13 ∷ 10 ∷ drop 4 bytes
at_terminator-split [] h = cc
at_terminator-split (a ∷ []) h = cc
at_terminator-split (a ∷ b ∷ []) h = cc
at_terminator-split (a ∷ b ∷ c ∷ []) h = cc
at_terminator-split (a ∷ b ∷ c ∷ d ∷ rest) h =
    let first_is : a ≡ 13 = ground arith in
    let second_is : b ≡ 10 = ground arith in
    let third_is : c ≡ 13 = ground arith in let fourth_is : d ≡ 10 = ground arith in cc

-- The bytes before the position, the blank line, and the rest.
abbrev IsSplit : List ℕ → ℕ → Type 0
IsSplit bytes n =
    (bytes ≡ take n bytes ++ 13 ∷ 10 ∷ 13 ∷ 10 ∷ drop (suc (suc (suc (suc n)))) bytes)
    × (length (take n bytes) ≡ n)

header_end-IsSplit : (bytes : List ℕ) (n : ℕ) → header_end_of bytes ≡ some n → IsSplit bytes n
unfolding header_end_of
header_end-IsSplit [] n h = cc
header_end-IsSplit (byte ∷ bytes) n h =
    by_start (at_terminator (byte ∷ bytes)) refl (header_end_of bytes) refl h
      (header_end-IsSplit bytes)
  where
    by_start :
        (starts : Bool)
        → at_terminator (byte ∷ bytes) ≡ starts
        → (rest : Option ℕ) → header_end_of bytes ≡ rest
        → (if starts then some 0 else map_option suc rest) ≡ some n
        → ((k : ℕ) → header_end_of bytes ≡ some k → IsSplit bytes k)
        → IsSplit (byte ∷ bytes) n
    by_start true e rest f g later =
        let here : 0 ≡ n = cc in
        subst (IsSplit (byte ∷ bytes)) here (at_terminator-split (byte ∷ bytes) e, refl)
    by_start false e none f g later = cc
    by_start false e (some k) f g later =
        let there : suc k ≡ n = cc in
        subst (IsSplit (byte ∷ bytes)) there
          (ap (λ t. byte ∷ t) (later k f).0, ap suc (later k f).1)

within-fits : (bound : ℕ) (n : Option ℕ) (m : ℕ) → within bound n ≡ some m → m ≤ bound
within-fits bound none m h = cc
within-fits bound (some n) m h = elim (Bool-cases (leb n bound)) [
  | inl e ↦ ground arith
  | inr e ↦ ground arith
]

either_fits :
    (bound : ℕ) (b : Bool) (x y : Option ℕ) (n : ℕ)
    → (if b then within bound x else within bound y) ≡ some n
    → n ≤ bound
either_fits bound true x y n h = within-fits bound x n h
either_fits bound false x y n h = within-fits bound y n h

parse_uint-fits : (bound : ℕ) (text : String) (n : ℕ) → parse_uint bound text ≡ some n → n ≤ bound
unfolding parse_uint
parse_uint-fits bound String.[] n h = cc
parse_uint-fits bound (String.◌∷◌ c String.[]) n h = within-fits bound _ n h
parse_uint-fits bound (String.◌∷◌ c (String.◌∷◌ d text)) n h =
    either_fits bound (code c == 43) _ _ n h

too_short-enough :
    (expected : Option ℕ) (body_len n : ℕ)
    → too_short expected body_len ≡ false
    → expected ≡ some n
    → n ≤ body_len
too_short-enough none body_len n h e = cc
too_short-enough (some m) body_len n h e = let same : m ≡ n = cc in ground arith

word-fits : (word : Option String) (n : ℕ) → and_then word (parse_uint 65_535) ≡ some n → n < 2 ^ 16
word-fits none n h = cc
word-fits (some text) n h = omega (arith, parse_uint-fits 65_535 text n h)

module _ {E : Type 0} (bytes : List ℕ) (response : HttpResponse) (n : ℕ) (split : IsSplit bytes n)
    (first_at : header_end_of bytes ≡ some n) where
  checked-IsParsed :
      (lines : List String) (status : ℕ) (short : Bool)
      → status < 2 ^ 16
      → too_short (expected_len (headers_of lines)) (length (drop (n + 4) bytes)) ≡ short
      → checked {E = E} short
          (record { status_code = status; headers = headers_of lines; body = drop (n + 4) bytes })
        ≡ ok response
      → IsParsed bytes response
  checked-IsParsed lines status true fits enough h = cc
  checked-IsParsed lines status false fits enough h =
      let same : record {
        status_code = status;
        headers = headers_of lines;
        body = drop (n + 4) bytes;
      }
          ≡ response =
        ok_value {E = HttpTransportError E} _ _ refl refl h in
      let four : suc (suc (suc (suc n))) ≡ n + 4 = omega arith in
      subst (IsParsed bytes) same (record {
        head = take n bytes;
        in_bytes = split.0 ∙ ap (λ k. take n bytes ++ 13 ∷ 10 ∷ 13 ∷ 10 ∷ drop k bytes) four;
        first = λ front rest e. rw split.1 (first_found bytes front rest n first_at e);
        long_enough = λ m e.
            too_short-enough (expected_len (headers_of lines)) _ m enough
              (expected_len-IsContentLength (headers_of lines) m e);
        status_fits = fits;
      })

  status-IsParsed :
      (lines : List String) (word : Option String)
      → with_status {E = E} lines
          (drop (n + 4) bytes)
          (status_or_invalid (and_then word (parse_uint 65_535)))
        ≡ ok response
      → IsParsed bytes response
  status-IsParsed lines word h = by_status (and_then word (parse_uint 65_535)) refl h
    where
      by_status :
          (status : Option ℕ)
          → and_then word (parse_uint 65_535) ≡ status
          → with_status {E = E} lines (drop (n + 4) bytes) (status_or_invalid status) ≡ ok response
          → IsParsed bytes response
      by_status none e h = cc
      by_status (some status) e h = checked-IsParsed lines status _ (word-fits word status e) refl h

  lines-IsParsed :
      (lines : List String)
      → response_of {E = E} lines (drop (n + 4) bytes) ≡ ok response
      → IsParsed bytes response
  lines-IsParsed [] h = cc
  lines-IsParsed (line ∷ lines) h = status-IsParsed lines (second_word line) h

-- A response that parse_response accepts is in the bytes read: after the first blank line all is its
-- body, no shorter than the first number under Content-Length, and its status fits 16 bits.
pub parse_response-IsParsed :
    {E : Type 0} (lossy : List ℕ → String) (bytes : List ℕ) (response : HttpResponse)
    → parse_response {E = E} lossy bytes ≡ ok response
    → IsParsed bytes response
unfolding parse_response
parse_response-IsParsed {E = E} lossy bytes response h = by_head (header_end_of bytes) refl h
  where
    by_head :
        (found : Option ℕ)
        → header_end_of bytes ≡ found
        → after_head {E = E} lossy bytes found ≡ ok response
        → IsParsed bytes response
    by_head none e h = cc
    by_head (some n) e h =
        lines-IsParsed bytes response n (header_end-IsSplit bytes n e) e
          (lines_of (lossy (take n bytes))) h
