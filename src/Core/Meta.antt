-- ===== src/Core/Meta.antt =====
-- crates/ferredge-core/src/meta.rs: the open, protocol-keyed transport capture.
pub mod Laws
pub mod Fields
use ferredge.Prelude.{
  ℕ, Bool, not, String, str_eq, Option, none, some, List, [], ◌∷◌, ◌++◌, map, if◌then◌else◌,
  map_option, lookup,
}
use ferredge.Prelude.Int.{ℤ}
use ferredge.Core.Protocol.{ProtocolId}
use ferredge.Core.Headers
use ferredge.Core.Headers.{Headers}

pub data MetaValue : Type 0 where
  bool : Bool → MetaValue
  u64 : ℕ → MetaValue
  i64 : ℤ → MetaValue
  str : String → MetaValue
  bytes : List ℕ → MetaValue
  u64_list : List ℕ → MetaValue
  str_list : List String → MetaValue
  pairs : List (String × String) → MetaValue

abbrev pub Entries : Type 0
Entries = List (String × MetaValue)

pub record TransportMeta : Type 0 where
  pub protocol : ProtocolId
  pub headers : Option Headers
  pub entries : Entries

unfoldable pub new : ProtocolId → TransportMeta
new protocol = record { protocol = protocol; headers = none; entries = [] }

-- `entries.iter().find(…)`: the first entry stored under the key.
unfoldable pub get : TransportMeta → String → Option MetaValue
get meta key = lookup key meta.entries

-- The first entry under the key is overwritten in place; a new key goes to the end.
pub set_entry : Entries → String → MetaValue → Entries
set_entry [] key value = (key, value) ∷ []
set_entry ((entry_key, existing) ∷ entries) key value =
    if str_eq entry_key key
    then (entry_key, value) ∷ entries
    else (entry_key, existing) ∷ set_entry entries key value

unfoldable pub set : TransportMeta → String → MetaValue → TransportMeta
unfolding set_entry
set meta key value = record meta { entries = set_entry meta.entries key value }

-- `entries.remove(index)` at the position of the first entry under the key.
pub remove_first : Entries → String → Entries
remove_first [] key = []
remove_first ((entry_key, value) ∷ entries) key =
    if str_eq entry_key key then entries else (entry_key, value) ∷ remove_first entries key

-- `entries.retain(|(entry_key, _)| entry_key != key)`.
pub retain_others : Entries → String → Entries
retain_others [] key = []
retain_others ((entry_key, value) ∷ entries) key =
    if not (str_eq entry_key key)
    then (entry_key, value) ∷ retain_others entries key
    else retain_others entries key

unfoldable pub take : TransportMeta → String → Option MetaValue × TransportMeta
unfolding remove_first retain_others
take meta key = elim (lookup key meta.entries) [
  | none ↦ (none, meta)
  | some value ↦
      (some value, record meta { entries = retain_others (remove_first meta.entries key) key })
]

abbrev pub value_as_borrowed : MetaValue → MetaValue
value_as_borrowed (bool value) = bool value
value_as_borrowed (u64 value) = u64 value
value_as_borrowed (i64 value) = i64 value
value_as_borrowed (str value) = str value
value_as_borrowed (bytes value) = bytes value
value_as_borrowed (u64_list values) = u64_list values
value_as_borrowed (str_list values) = str_list (map (λ value. value) values)
value_as_borrowed (pairs values) = pairs (map (λ pair. (pair.0, pair.1)) values)

abbrev pub entry_as_borrowed : String × MetaValue → String × MetaValue
entry_as_borrowed (key, value) = (key, value_as_borrowed value)

unfoldable pub as_borrowed : TransportMeta → TransportMeta
as_borrowed meta = record {
  protocol = meta.protocol;
  headers = map_option Headers.as_borrowed meta.headers;
  entries = map entry_as_borrowed meta.entries;
}
