-- ===== src/Http/Encode/Headers.antt =====
-- What a server reads under a header name after the encoder has merged the planned headers.
use ferredge.Prelude.{
  ◌≡◌, refl, String, Option, none, some, List, [], ◌∷◌, ◌or◌, if◌then◌else◌, eq_ignore_ascii_case,
  eq_ignore_case_trans, eq_ignore_case_sym, arith,
}
use ferredge.Http.Encode.{header_value, merge_header, merge_headers, merge_content_type}

-- A merged pair is what its name reads, in any case; every other name reads as before.
pub header_value-merge_header :
    (headers : List (String × String)) (key value name : String)
    → header_value (merge_header headers key value) name
      ≡ (if eq_ignore_ascii_case key name then some value else header_value headers name)
unfolding header_value merge_header
header_value-merge_header [] key value name = refl
header_value-merge_header ((k, v) ∷ headers) key value name = ground (
  arith,
  eq_ignore_case_trans k key name,
  eq_ignore_case_trans k name key,
  eq_ignore_case_sym name key,
  header_value-merge_header headers key value name,
)

-- The last planned pair of the name.
abbrev pub last_value : List (String × String) → String → Option String
last_value [] name = none
last_value ((key, value) ∷ planned) name =
    last_value planned name or (if eq_ignore_ascii_case key name then some value else none)

pub header_value-merge_headers :
    (planned headers : List (String × String)) (name : String)
    → header_value (merge_headers headers planned) name
      ≡ last_value planned name or header_value headers name
unfolding merge_headers
header_value-merge_headers [] headers name = refl
header_value-merge_headers ((key, value) ∷ planned) headers name = ground (
  arith,
  header_value-merge_header headers key value name,
  header_value-merge_headers planned (merge_header headers key value) name,
)

pub header_value-merge_content_type :
    (headers : List (String × String)) (content_type : Option String) (name : String)
    → header_value (merge_content_type headers content_type) name ≡ (
        if eq_ignore_ascii_case "Content-Type" name
        then content_type or header_value headers name
        else header_value headers name)
header_value-merge_content_type headers none name = ground arith
header_value-merge_content_type headers (some content_type) name =
    ground (arith, header_value-merge_header headers "Content-Type" content_type name)
