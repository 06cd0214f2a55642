-- ===== src/Core/Payload.antt =====
-- crates/ferredge-core/src/command.rs: `PayloadValue`. A float is its 64-bit pattern.
use ferredge.Prelude.{ℕ, ◌≡◌, refl, ap, Bool, String, List}
use ferredge.Prelude.Int.{ℤ}

-- `List(Vec<PayloadValue>)` and `Map(Vec<(Cow<str>, PayloadValue)>)` hold payloads themselves, so
-- the two sequences stand in the block.
mutual
  pub data PayloadValue : Type 0 where
    null : PayloadValue
    bool : Bool → PayloadValue
    i64 : ℤ → PayloadValue
    u64 : ℕ → PayloadValue
    f64 : ℕ → PayloadValue
    string : String → PayloadValue
    bytes : List ℕ → PayloadValue
    list : Payloads → PayloadValue
    map : Fields → PayloadValue

  pub data Payloads : Type 0 where
    nil : Payloads
    cons : PayloadValue → Payloads → Payloads

  pub data Fields : Type 0 where
    end : Fields
    field : String → PayloadValue → Fields → Fields

unfoldable mutual
  pub as_borrowed : PayloadValue → PayloadValue
  as_borrowed null = null
  as_borrowed (bool value) = bool value
  as_borrowed (i64 value) = i64 value
  as_borrowed (u64 value) = u64 value
  as_borrowed (f64 value) = f64 value
  as_borrowed (string value) = string value
  as_borrowed (bytes value) = bytes value
  as_borrowed (list values) = list (payloads_as_borrowed values)
  as_borrowed (map values) = map (fields_as_borrowed values)

  pub payloads_as_borrowed : Payloads → Payloads
  payloads_as_borrowed nil = nil
  payloads_as_borrowed (cons value values) = cons (as_borrowed value) (payloads_as_borrowed values)

  pub fields_as_borrowed : Fields → Fields
  fields_as_borrowed end = end
  fields_as_borrowed (field key value values) =
      field key (as_borrowed value) (fields_as_borrowed values)

mutual
  unfolding as_borrowed

  borrowed : (value : PayloadValue) → as_borrowed value ≡ value
  borrowed (list values) = ap list (payloads_borrowed values)
  borrowed (map values) = ap map (fields_borrowed values)
  borrowed _ = refl

  payloads_borrowed : (values : Payloads) → payloads_as_borrowed values ≡ values
  payloads_borrowed nil = refl
  payloads_borrowed (cons v values) = λ i. cons (borrowed v i) (payloads_borrowed values i)

  fields_borrowed : (values : Fields) → fields_as_borrowed values ≡ values
  fields_borrowed end = refl
  fields_borrowed (field k v values) = λ i. field k (borrowed v i) (fields_borrowed values i)

pub as_borrowed_id : (value : PayloadValue) → as_borrowed value ≡ value
as_borrowed_id value = borrowed value
