-- ===== src/Core/Command.antt =====
-- crates/ferredge-core/src/command.rs and crates/ferredge-core/src/routed.rs: commands, their
-- results, and the routed envelopes. Identifier newtypes are their text.
use ferredge.Prelude.{String, Option}
use ferredge.Core.Protocol.{ProtocolId}
use ferredge.Core.Headers.{Headers}
use ferredge.Core.Meta.{TransportMeta}
use ferredge.Core.Payload.{PayloadValue}
use ferredge.Core.Route.{Route, Correlation}

pub data DeliveryState : Type 0 where
  accepted dispatched completed rejected timed_out : DeliveryState

pub data DeliveryGuarantee : Type 0 where
  best_effort at_least_once exactly_once : DeliveryGuarantee

pub record RequestOptions : Type 0 where
  pub headers : Headers
  pub content_type : Option String
  pub method : Option String
  pub path : Option String
  pub extensions : Option TransportMeta

pub record BrokerMessageOptions : Type 0 where
  pub delivery : Option DeliveryGuarantee
  pub headers : Headers
  pub extensions : Option TransportMeta

pub record BrokerSubscriptionOptions : Type 0 where
  pub delivery : Option DeliveryGuarantee
  pub durable_name : Option String
  pub shared_group : Option String
  pub extensions : Option TransportMeta

pub data BrokerChannelKind : Type 0 where
  topic queue subject stream : BrokerChannelKind

pub record BrokerAddress : Type 0 where
  pub name : String
  pub kind : Option BrokerChannelKind

pub data Intent : Type 0 where
  read : String → RequestOptions → Intent
  write : String → PayloadValue → RequestOptions → Intent
  invoke : String → Option PayloadValue → RequestOptions → Intent
  send : BrokerAddress → PayloadValue → BrokerMessageOptions → Intent
  subscribe : BrokerAddress → BrokerSubscriptionOptions → Intent
  unsubscribe : BrokerAddress → Intent

pub record Command : Type 0 where
  pub id : String
  pub source_device_id : Option String
  pub target_device_id : String
  pub intent : Intent
  pub correlation : Option Correlation

pub record CommandResult : Type 0 where
  pub command_id : String
  pub device_id : String
  pub state : DeliveryState
  pub payload : Option PayloadValue
  pub error : Option String
  pub correlation : Option Correlation

pub record EndpointRef : Type 0 where
  pub device_id : String
  pub protocol : ProtocolId

pub record RoutedEvent : Type 0 where
  pub source : EndpointRef
  pub route : Route
  pub payload : PayloadValue
  pub correlation : Option Correlation
  pub transport : Option TransportMeta

pub record RoutedResult : Type 0 where
  pub source : EndpointRef
  pub result : CommandResult
  pub transport : Option TransportMeta

pub data RoutedMessage : Type 0 where
  command : Command → RoutedMessage
  event : RoutedEvent → RoutedMessage
  result : RoutedResult → RoutedMessage
