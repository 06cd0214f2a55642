-- ===== src/Http/WireText.antt =====
-- The methods of `str` and `char` that crates/ferredge-proto-http/src/handler.rs reads responses with.
use Prim.Native.Char.{Char, code}
use ferredge.Prelude.{
  ℕ, ◌+◌, ◌-◌, ◌*◌, Bool, ◌&&◌, ◌||◌, String, str_eq, Option, none, some, List, [], ◌∷◌, leb, ◌==◌,
  if◌then◌else◌,
}

-- `str::split('/').next()`.
abbrev pub until_slash : String → String
until_slash String.[] = ""
until_slash (String.◌∷◌ c text) =
    let rest = until_slash text in if code c == 47 then "" else String.◌∷◌ c rest

-- What follows the first `]`.
abbrev pub after_bracket : String → Option String
after_bracket String.[] = none
after_bracket (String.◌∷◌ c text) =
    let rest = after_bracket text in if code c == 93 then some text else rest

-- `char::is_whitespace`.
abbrev pub is_whitespace : ℕ → Bool
is_whitespace c =
    leb 9 c && leb c 13
    || c == 32
    || c == 0x85
    || c == 0xa0
    || c == 0x1680
    || leb 0x2000 c && leb c 0x200a
    || c == 0x2028
    || c == 0x2029
    || c == 0x202f
    || c == 0x205f
    || c == 0x3000

abbrev pub trim_start : String → String
trim_start String.[] = ""
trim_start (String.◌∷◌ c text) =
    let rest = trim_start text in if is_whitespace (code c) then rest else String.◌∷◌ c text

abbrev pub trim_end : String → String
trim_end String.[] = ""
trim_end (String.◌∷◌ c text) =
    let rest = trim_end text in
    if is_whitespace (code c) && str_eq rest "" then "" else String.◌∷◌ c rest

abbrev pub trim : String → String
trim text = trim_end (trim_start text)

abbrev pub word : String → String
word String.[] = ""
word (String.◌∷◌ c text) =
    let rest = word text in if is_whitespace (code c) then "" else String.◌∷◌ c rest

abbrev pub after_word : String → String
after_word String.[] = ""
after_word (String.◌∷◌ c text) =
    let rest = after_word text in if is_whitespace (code c) then text else rest

-- `split_whitespace().nth(1)`.
abbrev pub second_word : String → Option String
second_word text =
    let found = word (trim_start (after_word (trim_start text))) in
    if str_eq found "" then none else some found

abbrev pub prepend : Char → List String → List String
prepend c [] = String.◌∷◌ c "" ∷ []
prepend c (line ∷ lines) = String.◌∷◌ c line ∷ lines

-- `str::lines`: a line ends with `\n` or `\r\n`.
unfoldable pub lines_of : String → List String
lines_of String.[] = []
lines_of (String.◌∷◌ c String.[]) = if code c == 10 then "" ∷ [] else String.◌∷◌ c "" ∷ []
lines_of (String.◌∷◌ c (String.◌∷◌ d text)) =
    let rest = lines_of (String.◌∷◌ d text) in
    let skipped = lines_of text in
    if code c == 10
    then "" ∷ rest
    else if code c == 13 && code d == 10
    then "" ∷ skipped
    else prepend c rest

abbrev pub digits : ℕ → String → Option ℕ
digits n String.[] = some n
digits n (String.◌∷◌ c text) =
    let rest = digits (n * 10 + (code c - 48)) text in
    if leb 48 (code c) && leb (code c) 57 then rest else none

abbrev pub within : ℕ → Option ℕ → Option ℕ
within bound none = none
within bound (some n) = if leb n bound then some n else none

-- `parse` to an unsigned integer: digits, with a plus sign before them or not.
unfoldable pub parse_uint : ℕ → String → Option ℕ
parse_uint bound String.[] = none
parse_uint bound (String.◌∷◌ c String.[]) = within bound (digits 0 (String.◌∷◌ c ""))
parse_uint bound (String.◌∷◌ c (String.◌∷◌ d text)) =
    if code c == 43
    then within bound (digits 0 (String.◌∷◌ d text))
    else within bound (digits 0 (String.◌∷◌ c (String.◌∷◌ d text)))

abbrev pub named : Char → Option (String × String) → Option (String × String)
named c none = none
named c (some (name, value)) = some (String.◌∷◌ c name, value)

-- `split_once(':')`.
abbrev pub split_colon : String → Option (String × String)
split_colon String.[] = none
split_colon (String.◌∷◌ c text) =
    let rest = split_colon text in if code c == 58 then some ("", text) else named c rest
