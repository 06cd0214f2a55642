-- ===== src/Core/Device.antt =====
-- crates/ferredge-core/src/device.rs: the device model. A `Map` is an association list.
use ferredge.Prelude.{ℕ, String, Option, List}
use ferredge.Core.Command.{BrokerAddress}

pub data DeviceStatus : Type 0 where
  online offline maintenance unknown : DeviceStatus

-- `permission` is the bit set of the allowed operations.
pub record DeviceResource (T : Type 0) : Type 0 where
  pub name : String
  pub resource_attributes : T
  pub unit : Option String
  pub permission : Option ℕ

pub record DeviceMessageEndpoint : Type 0 where
  pub name : String
  pub address : BrokerAddress
  pub metadata : Option (List (String × String))
  pub permission : Option ℕ

pub record Device (T E : Type 0) : Type 0 where
  pub id : String
  pub name : String
  pub status : DeviceStatus
  pub endpoint : E
  pub metadata : Option (List (String × String))
  pub max_connections : Option ℕ
  pub resources : List (String × DeviceResource T)
  pub message_endpoints : List DeviceMessageEndpoint
