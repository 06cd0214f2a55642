-- ===== src/Prelude/Text/Case.antt =====
-- Code points of a text, and comparison that ignores the case of ASCII letters.
use Prim.Native.Nat.{ℕ, ◌+◌}
use Prim.Native.Char.{code}
use Prim.Native.String.{String}
use mathlib.Core.Path.{◌≡◌, refl}
use mathlib.Core.Logic.{◌↔◌}
use mathlib.Core.Bool.{Bool, true, false, ◌&&◌}
use mathlib.Core.List.{List, [], ◌∷◌, map}
use native.Mathlib.Omega.{arith}
use package.ferredge.Prelude.Tests.{◌==◌, leb, if◌then◌else◌}

abbrev pub codes : String → List ℕ
codes String.[] = []
codes (String.◌∷◌ c s) = code c ∷ codes s

-- `u8::to_ascii_lowercase` on a code point.
pub to_lower : ℕ → ℕ
to_lower c = if leb b'A' c && leb c b'Z' then c + 32 else c

codes_eq : List ℕ → List ℕ → Bool
codes_eq [] [] = true
codes_eq (c ∷ s) (d ∷ t) = to_lower c == to_lower d && codes_eq s t
codes_eq _ _ = false

-- `str::eq_ignore_ascii_case`.
unfoldable pub eq_ignore_ascii_case : String → String → Bool
unfolding codes_eq to_lower
eq_ignore_ascii_case a b = codes_eq (codes a) (codes b)

codes_eq_iff : (a b : List ℕ) → (codes_eq a b ≡ true) ↔ (map to_lower a ≡ map to_lower b)
unfolding codes_eq
codes_eq_iff [] [] = (λ e. refl, λ e. refl)
codes_eq_iff [] (d ∷ b) = (λ e. cc, λ e. cc)
codes_eq_iff (c ∷ a) [] = (λ e. cc, λ e. cc)
codes_eq_iff (c ∷ a) (d ∷ b) =
    (λ e. ground (arith, codes_eq_iff a b), λ e. ground (arith, codes_eq_iff a b))

lowered : String → List ℕ
lowered s = map to_lower (codes s)

eq_ignore_case_iff : (a b : String) → (eq_ignore_ascii_case a b ≡ true) ↔ (lowered a ≡ lowered b)
unfolding lowered
eq_ignore_case_iff a b = unfold eq_ignore_ascii_case in codes_eq_iff (codes a) (codes b)

-- Texts that are equal up to case are alike in every comparison.
pub eq_ignore_case_trans :
    (a b c : String)
    → eq_ignore_ascii_case a b ≡ true
    → eq_ignore_ascii_case a c ≡ eq_ignore_ascii_case b c
eq_ignore_case_trans a b c h =
    ground (arith, eq_ignore_case_iff a b, eq_ignore_case_iff a c, eq_ignore_case_iff b c)

pub eq_ignore_case_sym : (a b : String) → eq_ignore_ascii_case a b ≡ eq_ignore_ascii_case b a
eq_ignore_case_sym a b = ground (arith, eq_ignore_case_iff a b, eq_ignore_case_iff b a)
