-- ===== src/Core/Headers.antt =====
-- crates/ferredge-core/src/headers.rs. A `Cow` is the text that it holds.
pub mod Laws
use ferredge.Prelude.{
  ℕ, Bool, String, Option, none, some, List, [], ◌∷◌, ◌++◌, map, if◌then◌else◌, length,
  eq_ignore_ascii_case,
}
use ferredge.Prelude

pub record Header : Type 0 where
  pub key : String
  pub value : String

abbrev pub Headers : Type 0
Headers = List Header

-- The first value whose key matches, whatever the case of its letters.
unfoldable pub get : Headers → String → Option String
get [] name = none
get (header ∷ headers) name =
    if eq_ignore_ascii_case header.key name then some header.value else get headers name

unfoldable pub push : Headers → String → String → Headers
push headers key value = headers ++ record { key = key; value = value } ∷ []

unfoldable pub merge : Headers → Headers → Headers
merge headers other = headers ++ other

unfoldable pub is_empty : Headers → Bool
is_empty headers = Prelude.is_empty headers

unfoldable pub len : Headers → ℕ
len headers = length headers

abbrev pub header_as_borrowed : Header → Header
header_as_borrowed header = record { key = header.key; value = header.value }

unfoldable pub as_borrowed : Headers → Headers
as_borrowed headers = map header_as_borrowed headers

-- `Headers::from(Vec<(String, String)>)`.
abbrev pub header_from : String × String → Header
header_from (key, value) = record { key = key; value = value }

unfoldable pub from_pairs : List (String × String) → Headers
from_pairs pairs = map header_from pairs
