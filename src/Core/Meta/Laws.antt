-- ===== src/Core/Meta/Laws.antt =====
-- Lookups after the operations of a transport capture.
use ferredge.Prelude.{
  ◌≡◌, refl, String, str_eq, eq_iff, Option, none, some, List, [], ◌∷◌, arith, if◌then◌else◌, ap,
  map, map_option, lookup, false,
}
use ferredge.Core.Headers.{Headers}
use ferredge.Core.Headers
use ferredge.Core.Headers.Laws.{as_borrowed_id as headers_id}
use ferredge.Core.Meta.{
  MetaValue, str_list, pairs, Entries, TransportMeta, get, set_entry, set, remove_first,
  retain_others, take, value_as_borrowed, entry_as_borrowed, as_borrowed,
}

lookup-set_entry :
    (entries : Entries) (key other : String) (value : MetaValue)
    → lookup other (set_entry entries key value)
      ≡ (if str_eq key other then some value else lookup other entries)
unfolding lookup set_entry
lookup-set_entry [] key other value = refl
lookup-set_entry ((k, v) ∷ entries) key other value = ground (
  arith,
  eq_iff k key,
  eq_iff k other,
  eq_iff key other,
  lookup-set_entry entries key other value,
)

-- After `set` the key reads back the value stored, and every other key reads as before.
pub get-set :
    (meta : TransportMeta) (key other : String) (value : MetaValue)
    → get (set meta key value) other ≡ (if str_eq key other then some value else get meta other)
unfolding get set
get-set meta key other value = lookup-set_entry meta.entries key other value

lookup-retain_others :
    (entries : Entries) (key other : String)
    → lookup other (retain_others entries key)
      ≡ (if str_eq key other then none else lookup other entries)
unfolding lookup retain_others
lookup-retain_others [] key other = ground arith
lookup-retain_others ((k, v) ∷ entries) key other =
    ground (
      arith,
      eq_iff k key,
      eq_iff k other,
      eq_iff key other,
      lookup-retain_others entries key other,
    )

lookup-remove_first :
    (entries : Entries) (key other : String)
    → str_eq key other ≡ false
    → lookup other (remove_first entries key) ≡ lookup other entries
unfolding lookup remove_first
lookup-remove_first [] key other h = refl
lookup-remove_first ((k, v) ∷ entries) key other h =
    ground (
      arith,
      eq_iff k key,
      eq_iff k other,
      eq_iff key other,
      lookup-remove_first entries key other h,
    )

lookup-remaining :
    (entries : Entries) (key other : String)
    → lookup other (retain_others (remove_first entries key) key)
      ≡ (if str_eq key other then none else lookup other entries)
lookup-remaining entries key other = ground (
  arith,
  lookup-retain_others (remove_first entries key) key other,
  lookup-remove_first entries key other,
)

-- `take` hands out what `get` reads; afterwards no entry is left under the key, not even a
-- duplicate, and every other key reads as before.
pub take-get :
    (meta : TransportMeta) (key other : String)
    → ((take meta key).0 ≡ get meta key)
      × (get (take meta key).1 other ≡ (if str_eq key other then none else get meta other))
unfolding get take
take-get meta key other = ground (arith, lookup-remaining meta.entries key other, eq_iff key other)

texts_id : (values : List String) → map (λ value. value) values ≡ values
texts_id [] = refl
texts_id (v ∷ values) = ap (λ t. v ∷ t) (texts_id values)

pairs_id : (values : List (String × String)) → map (λ pair. (pair.0, pair.1)) values ≡ values
pairs_id [] = refl
pairs_id (v ∷ values) = ap (λ t. v ∷ t) (pairs_id values)

value_as_borrowed_id : (value : MetaValue) → value_as_borrowed value ≡ value
value_as_borrowed_id (str_list values) = ap str_list (texts_id values)
value_as_borrowed_id (pairs values) = ap pairs (pairs_id values)
value_as_borrowed_id _ = refl

entries_as_borrowed_id : (entries : Entries) → map entry_as_borrowed entries ≡ entries
entries_as_borrowed_id [] = refl
entries_as_borrowed_id ((k, v) ∷ entries) =
    cc (value_as_borrowed_id v, entries_as_borrowed_id entries)

headers_as_borrowed_id :
    (headers : Option Headers) → map_option Headers.as_borrowed headers ≡ headers
headers_as_borrowed_id none = refl
headers_as_borrowed_id (some headers) = ap some (headers_id headers)

pub as_borrowed_id : (meta : TransportMeta) → as_borrowed meta ≡ meta
unfolding as_borrowed
as_borrowed_id meta = cc (headers_as_borrowed_id meta.headers, entries_as_borrowed_id meta.entries)
