-- ===== src/Bridge/Planner/Results.antt =====
-- How a command's delivery state becomes a bridge outcome.
use ferredge.Prelude.{◌≡◌, refl, Bool, true, false, String, Option, none, some}
use ferredge.Core.Protocol.{ProtocolId}
use ferredge.Core.Payload.{PayloadValue}
use ferredge.Core.Route.{Correlation}
use ferredge.Core.Command.{DeliveryState, RoutedResult, CommandResult}
use ferredge.Bridge.Message.{BridgeOutcome, BridgeFaultCategory}
use ferredge.Bridge.Planner.Outward.{bridge_result, outcome_of, failure_outcome}

-- The delivery state that an outcome tells of.
abbrev pub state_of : BridgeOutcome → DeliveryState
state_of (BridgeOutcome.progress state) = state
state_of (BridgeOutcome.success payload) = DeliveryState.completed
state_of (BridgeOutcome.failure state payload error fault) = state

abbrev pub is_failure : BridgeOutcome → Bool
is_failure (BridgeOutcome.failure _ _ _ _) = true
is_failure _ = false

abbrev pub is_final_failure : DeliveryState → Bool
is_final_failure DeliveryState.timed_out = true
is_final_failure DeliveryState.rejected = true
is_final_failure _ = false

abbrev pub is_timed_out : DeliveryState → Bool
is_timed_out DeliveryState.timed_out = true
is_timed_out _ = false

abbrev pub category_of : Bool → BridgeFaultCategory
category_of true = BridgeFaultCategory.timeout
category_of false = BridgeFaultCategory.rejected

-- The content that an outcome has of a result: a failure has all of it, and its fault names the
-- protocol and may be tried again exactly when the command timed out.
abbrev pub HasContent : ProtocolId → CommandResult → BridgeOutcome → Type 0
HasContent protocol result (BridgeOutcome.progress state) = Unit
HasContent protocol result (BridgeOutcome.success payload) = payload ≡ result.payload
HasContent protocol result (BridgeOutcome.failure state payload error fault) =
    (payload ≡ result.payload)
    × (error ≡ result.error)
    × (fault ≡ record {
      category = category_of (is_timed_out result.state);
      protocol_code = none;
      retryable = is_timed_out result.state;
      source = some (record { protocol = some protocol; location = none });
      detail = result.error;
    })

pub record IsOutcomeOf (protocol : ProtocolId) (result : CommandResult) (outcome : BridgeOutcome)
    : Type 0 where
  pub state : state_of outcome ≡ result.state
  pub failure : is_failure outcome ≡ is_final_failure result.state
  pub content : HasContent protocol result outcome

outcome_of_lem :
    (protocol : ProtocolId) (id device : String) (state : DeliveryState)
    (payload : Option PayloadValue) (error : Option String) (correlation : Option Correlation)
    → IsOutcomeOf protocol
        (record {
          command_id = id;
          device_id = device;
          state = state;
          payload = payload;
          error = error;
          correlation = correlation;
        })
        (outcome_of protocol state payload error)
unfolding outcome_of failure_outcome
outcome_of_lem protocol id device DeliveryState.accepted payload error correlation = record {
  state = refl;
  failure = refl;
  content = tt;
}
outcome_of_lem protocol id device DeliveryState.dispatched payload error correlation = record {
  state = refl;
  failure = refl;
  content = tt;
}
outcome_of_lem protocol id device DeliveryState.completed payload error correlation = record {
  state = refl;
  failure = refl;
  content = refl;
}
outcome_of_lem protocol id device DeliveryState.rejected payload error correlation = record {
  state = refl;
  failure = refl;
  content = (refl, refl, refl);
}
outcome_of_lem protocol id device DeliveryState.timed_out payload error correlation = record {
  state = refl;
  failure = refl;
  content = (refl, refl, refl);
}

-- The bridge result tells the delivery state of the routed result; it is a failure exactly for a
-- rejection and a timeout, and then keeps payload and error text and has a fault of that category,
-- to be tried again only after a timeout; a success keeps the payload. Source, command id and
-- correlation are the routed result's.
pub bridge_result_lem :
    (routed : RoutedResult)
    → IsOutcomeOf routed.source.protocol routed.result (bridge_result routed).outcome
      × ((bridge_result routed).meta.source ≡ routed.source)
      × ((bridge_result routed).meta.command_id ≡ routed.result.command_id)
      × ((bridge_result routed).meta.correlation ≡ routed.result.correlation)
unfolding bridge_result
bridge_result_lem routed = (
  outcome_of_lem routed.source.protocol routed.result.command_id routed.result.device_id
      routed.result.state routed.result.payload routed.result.error routed.result.correlation,
  refl,
  refl,
  refl,
)
