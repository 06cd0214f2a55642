-- ===== src/Core/Headers/Laws.antt =====
-- How lookups go through the operations of a header list.
use ferredge.Prelude.{◌≡◌, refl, String, [], ◌∷◌, ◌++◌, length-append, arith, ◌or◌, ◌+◌, ap}
use ferredge.Core.Headers.{Headers, get, merge, len, as_borrowed}

get-append :
    (hs other : Headers) (name : String) → get (hs ++ other) name ≡ get hs name or get other name
unfolding get
get-append [] other name = refl
get-append (h ∷ hs) other name = ground (arith, get-append hs other name)

-- A lookup in merged headers finds the receiver's pair first, and the merged-in pair only when the
-- receiver has none of that name; no pair is dropped, since the lengths add up.
pub get-merge :
    (headers other : Headers) (name : String)
    → (get (merge headers other) name ≡ get headers name or get other name)
      × (len (merge headers other) ≡ len headers + len other)
unfolding merge len
get-merge headers other name = (get-append headers other name, length-append headers other)

pub as_borrowed_id : (headers : Headers) → as_borrowed headers ≡ headers
unfolding as_borrowed
as_borrowed_id [] = refl
as_borrowed_id (h ∷ hs) = ap (λ t. h ∷ t) (as_borrowed_id hs)
