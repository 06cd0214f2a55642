-- ===== src/Witness/Bridge.antt =====
-- The theorems on the bridge planner at concrete data.
use ferredge.Prelude.{◌≡◌, refl, true, none, some, [], ◌++◌, ◌≢◌, is_ok, unwrap_or, map_option}
use ferredge.Core.Protocol as Protocol
use ferredge.Core.Payload.{PayloadValue}
use ferredge.Core.Route.{AddressedAccessMeta}
use ferredge.Core.Command.{DeliveryState, RoutedResult}
use ferredge.Bridge.Planner.{command_to_request_response, capture_with_headers}
use ferredge.Bridge.Planner.Outward.{bridge_result}
use ferredge.Bridge.Planner.Envelope.{KeepsAll, planners_keep}
use ferredge.Bridge.Planner.Results.{IsOutcomeOf, bridge_result_lem}
use ferredge.Bridge.Planner.Carried.{carried, stripped, capture_with_headers_lem}
use ferredge.Witness.Data.{capture, request_options, write_setpoint}

abbrev register : AddressedAccessMeta
register = record { address = 40; domain = "holding-register"; quantity = none }

planners_keep_example : KeepsAll write_setpoint register 17
planners_keep_example = planners_keep write_setpoint register 17

accepted : is_ok (command_to_request_response write_setpoint) ≡ true
unfolding command_to_request_response
accepted = refl

abbrev late : RoutedResult
late = record {
  source = record { device_id = "thermostat"; protocol = Protocol.http };
  result = record {
    command_id = "cmd-1";
    device_id = "thermostat";
    state = DeliveryState.timed_out;
    payload = some (PayloadValue.u64 21);
    error = some "no answer";
    correlation = none;
  };
  transport = some capture;
}

bridge_result_lem_example :
    IsOutcomeOf late.source.protocol late.result (bridge_result late).outcome
    × ((bridge_result late).meta.source ≡ late.source)
    × ((bridge_result late).meta.command_id ≡ late.result.command_id)
    × ((bridge_result late).meta.correlation ≡ late.result.correlation)
bridge_result_lem_example = bridge_result_lem late

capture_with_headers_lem_example :
    (unwrap_or (capture_with_headers (some capture) request_options.headers).1 []
      ≡ request_options.headers ++ carried (some capture))
    × ((capture_with_headers (some capture) request_options.headers).1 ≢ some [])
    × ((capture_with_headers (some capture) request_options.headers).0
        ≡ map_option stripped (some capture))
capture_with_headers_lem_example = capture_with_headers_lem (some capture) request_options.headers
