-- ===== src/Bridge/Message.antt =====
-- crates/ferredge-bridge/src: capability.rs, op.rs, fault.rs, error.rs and message.rs.
use ferredge.Prelude.{Bool, String, Option}
use ferredge.Core.Protocol.{ProtocolId}
use ferredge.Core.Headers.{Headers}
use ferredge.Core.Meta.{TransportMeta}
use ferredge.Core.Payload.{PayloadValue}
use ferredge.Core.Route.{Route, Correlation}
use ferredge.Core.Command.{DeliveryState, DeliveryGuarantee, EndpointRef}

-- Each capability holds its `binary_payloads` flag.
pub data BridgeCapability : Type 0 where
  messaging request_response register_access : Bool → BridgeCapability
  binary_stream_reserved session_stream_reserved : BridgeCapability

pub data RequestResponseAction : Type 0 where
  read write invoke : RequestResponseAction

pub data MessagingAction : Type 0 where
  publish subscribe unsubscribe : MessagingAction

pub data RegisterAccessAction : Type 0 where
  read write : RegisterAccessAction

pub record RequestResponseOp : Type 0 where
  pub action : RequestResponseAction
  pub method : Option String
  pub content_type : Option String

pub record MessagingOp : Type 0 where
  pub action : MessagingAction
  pub delivery : Option DeliveryGuarantee
  pub durable_name : Option String
  pub shared_group : Option String

pub data BridgeOp : Type 0 where
  request_response : RequestResponseOp → BridgeOp
  messaging : MessagingOp → BridgeOp
  register_access : RegisterAccessAction → BridgeOp

pub data BridgeFaultCategory : Type 0 where
  unsupported not_found invalid_input transport timeout protocol rejected internal :
      BridgeFaultCategory

pub record BridgeFaultSource : Type 0 where
  pub protocol : Option ProtocolId
  pub location : Option String

pub record BridgeFault : Type 0 where
  pub category : BridgeFaultCategory
  pub protocol_code : Option String
  pub retryable : Bool
  pub source : Option BridgeFaultSource
  pub detail : Option String

pub data BridgePlannerError : Type 0 where
  unsupported_intent : BridgePlannerError
  unexpected_message_kind : String → BridgePlannerError

pub record BridgeCommand : Type 0 where
  pub id : String
  pub source_device_id : Option String
  pub target_device_id : String
  pub capability : BridgeCapability
  pub operation : BridgeOp
  pub payload : Option PayloadValue
  pub route : Route
  pub transport : Option TransportMeta
  pub headers : Option Headers
  pub correlation : Option Correlation

pub record BridgeEvent : Type 0 where
  pub source : EndpointRef
  pub capability : BridgeCapability
  pub operation : BridgeOp
  pub payload : PayloadValue
  pub route : Route
  pub transport : Option TransportMeta
  pub headers : Option Headers
  pub correlation : Option Correlation

pub record BridgeMessageMeta : Type 0 where
  pub source : EndpointRef
  pub command_id : String
  pub capability : Option BridgeCapability
  pub operation : Option BridgeOp
  pub transport : Option TransportMeta
  pub headers : Option Headers
  pub correlation : Option Correlation

pub data BridgeOutcome : Type 0 where
  progress : DeliveryState → BridgeOutcome
  success : Option PayloadValue → BridgeOutcome
  failure : DeliveryState → Option PayloadValue → Option String → BridgeFault → BridgeOutcome

pub record BridgeResult : Type 0 where
  pub meta : BridgeMessageMeta
  pub outcome : BridgeOutcome

pub data BridgeMessage : Type 0 where
  command : BridgeCommand → BridgeMessage
  event : BridgeEvent → BridgeMessage
  result : BridgeResult → BridgeMessage
