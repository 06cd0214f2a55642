-- ===== src/Http/Request.antt =====
-- crates/ferredge-proto-http/src/lib.rs: `HttpDriver::native_request` and `bridge_request`.
pub mod Equivalence
use ferredge.Prelude.{Result, ◌>>=◌, map_err}
use ferredge.Core.Command.{Command}
use ferredge.Bridge.Planner.{command_to_request_response}
use ferredge.Http.Types.{HttpDevice, HttpRequest, HttpCommandConversionError, bridge}
use ferredge.Http.Plan.{plan_native, plan_of_message}
use ferredge.Http.Encode.{encode}

unfoldable pub native_request : HttpDevice → Command → Result HttpRequest HttpCommandConversionError
unfolding plan_native encode
native_request device command = plan_native command >>= encode device

-- The planner's error is converted by `?`.
unfoldable pub bridge_request : HttpDevice → Command → Result HttpRequest HttpCommandConversionError
unfolding command_to_request_response plan_of_message encode
bridge_request device command =
    map_err bridge (command_to_request_response command) >>= plan_of_message >>= encode device
