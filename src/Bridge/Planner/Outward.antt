-- ===== src/Bridge/Planner/Outward.antt =====
-- crates/ferredge-bridge/src/planner.rs: inbound events, and results and events as bridge messages.
use ferredge.Prelude.{Bool, true, false, String, Option, none, some}
use ferredge.Core.Protocol.{ProtocolId}
use ferredge.Core.Payload.{PayloadValue}
use ferredge.Core.Route.{Route, Correlation}
use ferredge.Core.Command.{DeliveryState, EndpointRef, RoutedEvent, RoutedResult}
use ferredge.Bridge.Message.{
  BridgeCapability, BridgeOp, MessagingAction, BridgeFaultCategory, BridgeOutcome, BridgeResult,
  BridgeMessage,
}
use ferredge.Bridge.Planner.{split_capture_headers}

unfoldable pub inbound_messaging_event :
    EndpointRef → String → PayloadValue → Option Correlation → RoutedEvent
inbound_messaging_event source topic payload correlation = record {
  source = source;
  route = Route.messaging topic;
  payload = payload;
  correlation = correlation;
  transport = none;
}

-- The `Failure` arm: a timeout may be tried again, a rejection may not.
unfoldable pub failure_outcome :
    ProtocolId
    → DeliveryState
    → BridgeFaultCategory × Bool
    → Option PayloadValue
    → Option String
    → BridgeOutcome
failure_outcome protocol state (category, retryable) payload error =
    BridgeOutcome.failure state payload error (record {
      category = category;
      protocol_code = none;
      retryable = retryable;
      source = some (record { protocol = some protocol; location = none });
      detail = error;
    })

unfoldable pub outcome_of :
    ProtocolId → DeliveryState → Option PayloadValue → Option String → BridgeOutcome
unfolding failure_outcome
outcome_of protocol DeliveryState.accepted payload error =
    BridgeOutcome.progress DeliveryState.accepted
outcome_of protocol DeliveryState.dispatched payload error =
    BridgeOutcome.progress DeliveryState.dispatched
outcome_of protocol DeliveryState.completed payload error = BridgeOutcome.success payload
outcome_of protocol DeliveryState.timed_out payload error =
    failure_outcome protocol DeliveryState.timed_out (BridgeFaultCategory.timeout, true) payload
      error
outcome_of protocol DeliveryState.rejected payload error =
    failure_outcome protocol DeliveryState.rejected (BridgeFaultCategory.rejected, false) payload
      error

unfoldable pub bridge_result : RoutedResult → BridgeResult
unfolding split_capture_headers outcome_of
bridge_result routed =
    let (transport, headers) = split_capture_headers routed.transport in
    record {
      meta = record {
        source = routed.source;
        command_id = routed.result.command_id;
        capability = none;
        operation = none;
        transport = transport;
        headers = headers;
        correlation = routed.result.correlation;
      };
      outcome =
          outcome_of routed.source.protocol routed.result.state routed.result.payload
            routed.result.error;
    }

unfoldable pub routed_result_to_bridge : RoutedResult → BridgeMessage
unfolding bridge_result
routed_result_to_bridge routed = BridgeMessage.result (bridge_result routed)

unfoldable pub routed_event_to_bridge : RoutedEvent → BridgeMessage
unfolding split_capture_headers
routed_event_to_bridge event =
    let (transport, headers) = split_capture_headers event.transport in
    BridgeMessage.event (record {
      source = event.source;
      capability = BridgeCapability.messaging true;
      operation = BridgeOp.messaging (record {
        action = MessagingAction.publish;
        delivery = none;
        durable_name = none;
        shared_group = none;
      });
      payload = event.payload;
      route = event.route;
      transport = transport;
      headers = headers;
      correlation = event.correlation;
    })
