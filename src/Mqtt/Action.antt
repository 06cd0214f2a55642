-- ===== src/Mqtt/Action.antt =====
-- Fallible steps that act on a state, with errors as text and without an answer where a bounded loop
-- runs out of fuel.
use ferredge.Prelude.{String, Option, none, some, Result, ok, err}

abbrev pub Action : Type 0 → Type 0 → Type 0
Action S A = S → Option (Result A String × S)

module _ {S : Type 0} where
  infixl 5 ◌>>=◌ ◌>>◌
  unfoldable pub ◌>>=◌ : {A B : Type 0} → Action S A → (A → Action S B) → Action S B
  ◌>>=◌ m f s = elim (m s) [
    | none ↦ none
    | some (err e, s') ↦ some (err e, s')
    | some (ok a, s') ↦ f a s'
  ]

  abbrev pub ◌>>◌ : {A B : Type 0} → Action S A → Action S B → Action S B
  m >> k = m >>= λ _. k

  abbrev pub done : {A : Type 0} → A → Action S A
  done a s = some (ok a, s)

  abbrev pub fail : {A : Type 0} → String → Action S A
  fail e s = some (err e, s)

  abbrev pub lift : {A : Type 0} → Result A String → Action S A
  lift answer s = some (answer, s)

  abbrev pub modify : (S → S) → Action S (Unit {0})
  modify f s = some (ok tt, f s)
