-- ===== src/Core/Route.antt =====
-- crates/ferredge-core/src/route.rs, and `Address` and `Correlation` of
-- crates/ferredge-core/src/command.rs.
pub mod Correlated
use ferredge.Prelude.{ℕ, ◌≡◌, refl, String, Option, none, some, map_option}

pub record AddressedAccessMeta : Type 0 where
  pub address : ℕ
  pub domain : String
  pub quantity : Option ℕ

pub data Route : Type 0 where
  -- The resource, and the path if one is kept.
  request_response : String → Option String → Route
  messaging : String → Route
  -- The resource, where it is, and the node.
  addressed_access : String → AddressedAccessMeta → Option ℕ → Route

pub data Address : Type 0 where
  resource : String → Address
  channel : String → Address

pub record Correlation : Type 0 where
  pub request_id : String
  pub reply_to : Option Address

unfoldable pub address_as_borrowed : Address → Address
address_as_borrowed (resource value) = resource value
address_as_borrowed (channel value) = channel value

unfoldable pub correlation_as_borrowed : Correlation → Correlation
unfolding address_as_borrowed
correlation_as_borrowed c = record {
  request_id = c.request_id;
  reply_to = map_option address_as_borrowed c.reply_to;
}

unfoldable pub from_address : Address → Route
from_address (channel topic) = messaging topic
from_address (resource name) = request_response name none

address_borrowed : (a : Address) → address_as_borrowed a ≡ a
unfolding address_as_borrowed
address_borrowed (resource value) = refl
address_borrowed (channel value) = refl

reply_borrowed : (a : Option Address) → map_option address_as_borrowed a ≡ a
reply_borrowed none = refl
reply_borrowed (some a) = λ i. some (address_borrowed a i)

pub correlation_as_borrowed_id : (c : Correlation) → correlation_as_borrowed c ≡ c
unfolding correlation_as_borrowed
correlation_as_borrowed_id c =
    λ i. record { request_id = c.request_id; reply_to = reply_borrowed c.reply_to i }
