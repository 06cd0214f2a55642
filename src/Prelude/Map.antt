-- ===== src/Prelude/Map.antt =====
-- A map (`HashMap`, `BTreeMap`) as an association list, with at most the first pair under a key in
-- use. `same` is the equality of the keys.
use mathlib.Core.Path.{◌≡◌, refl}
use mathlib.Core.Logic.{◌↔◌}
use mathlib.Core.Bool.{Bool, true}
use mathlib.Core.Option.{Option, none, some}
use mathlib.Core.List.{List, [], ◌∷◌}
use native.Mathlib.Omega.{arith}
use package.ferredge.Prelude.Tests.{if◌then◌else◌}

module _ {ℓ} {K : Type 0} {V : Type ℓ} (same : K → K → Bool) where
  unfoldable pub get : List (K × V) → K → Option V
  get [] k = none
  get ((j, v) ∷ m) k = if same j k then some v else get m k

  unfoldable pub insert : List (K × V) → K → V → List (K × V)
  insert [] k v = (k, v) ∷ []
  insert ((j, w) ∷ m) k v = if same j k then (k, v) ∷ m else (j, w) ∷ insert m k v

  unfoldable pub remove : List (K × V) → K → List (K × V)
  remove [] k = []
  remove ((j, v) ∷ m) k = if same j k then remove m k else (j, v) ∷ remove m k

  module _ (same_iff : (a b : K) → (same a b ≡ true) ↔ (a ≡ b)) where
    pub get-insert :
        (m : List (K × V)) (k j : K) (v : V)
        → get (insert m k v) j ≡ (if same k j then some v else get m j)
    unfolding get insert
    get-insert [] k j v = refl
    get-insert ((i, w) ∷ m) k j v =
        ground (arith, same_iff i k, same_iff i j, same_iff k j, get-insert m k j v)

    pub get-remove :
        (m : List (K × V)) (k j : K) → get (remove m k) j ≡ (if same k j then none else get m j)
    unfolding get remove
    get-remove [] k j = ground arith
    get-remove ((i, w) ∷ m) k j =
        ground (arith, same_iff i k, same_iff i j, same_iff k j, get-remove m k j)
