-- ===== src/Core/Meta/Fields.antt =====
-- What a typed view reads from a capture when its decoder walks the entries once, skips every key
-- that it has met before, and keeps a default for a key that does not occur. The decoders of the
-- protocol crates share this shape; `field_at` describes one field of one of them by lookups.
use ferredge.Prelude.{
  ◌≡◌, refl, ap, Bool, true, false, ◌||◌, String, str_eq, eq_iff, eq_refl, Option, none, some, List,
  [], ◌∷◌, ◌++◌, Result, ok_option, map_option, lookup, subst, Bool-cases, inl, inr, if◌then◌else◌,
  arith,
}
use ferredge.Core.Meta.{MetaValue, Entries, set_entry}

-- `seen.iter().any(|entry| entry == &key)`
unfoldable pub contains : List String → String → Bool
contains [] key = false
contains (entry ∷ seen) key = str_eq entry key || contains seen key

pub contains-push :
    (seen : List String) (key other : String)
    → contains (seen ++ key ∷ []) other ≡ (contains seen other || str_eq key other)
unfolding contains
contains-push [] key other = ground arith
contains-push (entry ∷ seen) key other = ground (arith, contains-push seen key other)

or_false : (b : Bool) → (b || false) ≡ b
or_false b = ground arith

or_true : (b : Bool) → (b || true) ≡ true
or_true b = ground arith

module _ {A E : Type 0} (decode : MetaValue → Result A E) where
  -- The first entry under the key, if the key was not met before; an ill-typed one is `none`.
  abbrev pub field_at : List String → Entries → String → Option A → Option (Option A)
  field_at seen entries key fallback =
      if contains seen key then some fallback else elim (lookup key entries) [
        | none ↦ some fallback
        | some value ↦ map_option some (ok_option (decode value))
      ]

  pub field_at_skip :
      (seen : List String) (entries : Entries) (key other : String) (value : MetaValue)
      (fallback : Option A)
      → contains seen key ≡ true
      → field_at seen ((key, value) ∷ entries) other fallback ≡ field_at seen entries other fallback
  unfolding lookup
  field_at_skip seen entries key other value fallback h = elim (Bool-cases (str_eq key other)) [
    | inl same ↦
        let met : contains seen other ≡ true =
          subst (λ k. contains seen k ≡ true) ((eq_iff key other).0 same) h in
        rw met refl
    | inr differ ↦ rw differ refl
  ]

  pub field_at_other :
      (seen : List String) (entries : Entries) (key other : String) (value : MetaValue)
      (fallback : Option A)
      → str_eq key other ≡ false
      → field_at (seen ++ key ∷ []) entries other fallback
        ≡ field_at seen ((key, value) ∷ entries) other fallback
  unfolding lookup
  field_at_other seen entries key other value fallback h =
      rw (contains-push seen key other, h) (rw (or_false (contains seen other)) refl)

  pub field_at_own :
      (seen : List String) (entries : Entries) (key : String) (fallback : Option A)
      → field_at (seen ++ key ∷ []) entries key fallback ≡ some fallback
  field_at_own seen entries key fallback =
      rw (contains-push seen key key, eq_refl key) (rw (or_true (contains seen key)) refl)

  pub field_at_first :
      (seen : List String) (entries : Entries) (key : String) (value : MetaValue)
      (fallback : Option A)
      → contains seen key ≡ false
      → field_at seen ((key, value) ∷ entries) key fallback
        ≡ map_option some (ok_option (decode value))
  unfolding lookup
  field_at_first seen entries key value fallback h = rw (h, eq_refl key) refl

  pub field_at_nil :
      (seen : List String) (key : String) (fallback : Option A)
      → field_at seen [] key fallback ≡ some fallback
  unfolding lookup
  field_at_nil seen key fallback = elim (Bool-cases (contains seen key)) [
    | inl met ↦ rw met refl
    | inr new ↦ rw new refl
  ]

pub or_is_false : (a b : Bool) → (a || b) ≡ false → (a ≡ false) × (b ≡ false)
or_is_false a b h = ground arith

abbrev pub keys_of : Entries → List String
keys_of [] = []
keys_of ((key, value) ∷ entries) = key ∷ keys_of entries

pub keys_of-push :
    (entries : Entries) (key : String) (value : MetaValue)
    → keys_of (entries ++ (key, value) ∷ []) ≡ keys_of entries ++ key ∷ []
keys_of-push [] key value = refl
keys_of-push ((k, v) ∷ entries) key value = ap (λ t. k ∷ t) (keys_of-push entries key value)

-- A key that is not there yet is stored at the end.
pub set_entry_new :
    (entries : Entries) (key : String) (value : MetaValue)
    → contains (keys_of entries) key ≡ false
    → set_entry entries key value ≡ entries ++ (key, value) ∷ []
unfolding set_entry contains
set_entry_new [] key value f = refl
set_entry_new ((k, v) ∷ entries) key value f =
    let parts = or_is_false (str_eq k key) (contains (keys_of entries) key) f in
    rw parts.0 (ap (λ t. (k, v) ∷ t) (set_entry_new entries key value parts.1))
