-- ===== src/Bridge/Planner/Envelope.antt =====
-- Which commands each planner accepts, and what it keeps of them.
use ferredge.Prelude.{
  ◌≡◌, refl, ℕ, Bool, true, false, not, ◌&&◌, String, Option, none, some, Result, ok, err, is_ok,
  arith,
}
use ferredge.Core.Payload.{PayloadValue}
use ferredge.Core.Route.{Route, AddressedAccessMeta, Correlation}
use ferredge.Core.Command.{Intent, Command}
use ferredge.Bridge.Message.{BridgeMessage, BridgeCommand, BridgePlannerError}
use ferredge.Bridge.Planner.{
  request_response_command, messaging_command, bridge_register_command, command_to_request_response,
  command_to_messaging, command_to_register_access,
}

abbrev pub is_invoke : Intent → Bool
is_invoke (Intent.invoke _ _ _) = true
is_invoke _ = false

-- Every command is accepted by exactly one of the request/response and the messaging planner, and
-- the register planner accepts what the first does, less the invocations.
pub planners_partition :
    (command : Command) (register : AddressedAccessMeta) (unit_id : ℕ)
    → (is_ok (command_to_messaging command) ≡ not (is_ok (command_to_request_response command)))
      × (is_ok (command_to_register_access command register unit_id)
          ≡ (is_ok (command_to_request_response command) && not (is_invoke command.intent)))
unfolding command_to_messaging command_to_request_response command_to_register_access
planners_partition command register unit_id = ground arith

abbrev pub payload_of : Intent → Option PayloadValue
payload_of (Intent.write _ payload _) = some payload
payload_of (Intent.invoke _ args _) = args
payload_of (Intent.send _ payload _) = some payload
payload_of _ = none

-- The name that the intent is aimed at, and the name that a route leads to.
abbrev pub target_name : Intent → String
target_name (Intent.read resource _) = resource
target_name (Intent.write resource _ _) = resource
target_name (Intent.invoke operation _ _) = operation
target_name (Intent.send channel _ _) = channel.name
target_name (Intent.subscribe channel _) = channel.name
target_name (Intent.unsubscribe channel) = channel.name

abbrev pub route_name : Route → String
route_name (Route.request_response resource _) = resource
route_name (Route.messaging topic) = topic
route_name (Route.addressed_access resource _ _) = resource

pub record IsPlanOf (command : Command) (planned : BridgeCommand) : Type 0 where
  pub id : planned.id ≡ command.id
  pub source : planned.source_device_id ≡ command.source_device_id
  pub target : planned.target_device_id ≡ command.target_device_id
  pub payload : planned.payload ≡ payload_of command.intent
  pub route : route_name planned.route ≡ target_name command.intent
  pub correlation : planned.correlation ≡ command.correlation

-- A planner's answer: a command envelope with the source's content, or the one refusal.
abbrev pub Keeps : Command → Result BridgeMessage BridgePlannerError → Type 0
Keeps command (ok (BridgeMessage.command planned)) = IsPlanOf command planned
Keeps command (ok _) = ⊥
Keeps command (err e) = e ≡ BridgePlannerError.unsupported_intent

abbrev pub KeepsAll : Command → AddressedAccessMeta → ℕ → Type 0
KeepsAll command register unit_id =
    Keeps command (command_to_request_response command)
    × Keeps command (command_to_messaging command)
    × Keeps command (command_to_register_access command register unit_id)

of_intent :
    (id : String) (source : Option String) (target : String) (correlation : Option Correlation)
    (register : AddressedAccessMeta) (unit_id : ℕ) (intent : Intent)
    → KeepsAll
        (record {
          id = id;
          source_device_id = source;
          target_device_id = target;
          intent = intent;
          correlation = correlation;
        })
        register
        unit_id
unfolding command_to_request_response request_response_command command_to_messaging
    messaging_command command_to_register_access bridge_register_command
of_intent id source target correlation register unit_id (Intent.read resource options) = (
  record {
    id = refl;
    source = refl;
    target = refl;
    payload = refl;
    route = refl;
    correlation = refl;
  },
  refl,
  record {
    id = refl;
    source = refl;
    target = refl;
    payload = refl;
    route = refl;
    correlation = refl;
  },
)
of_intent id source target correlation register unit_id (Intent.write resource payload options) = (
  record {
    id = refl;
    source = refl;
    target = refl;
    payload = refl;
    route = refl;
    correlation = refl;
  },
  refl,
  record {
    id = refl;
    source = refl;
    target = refl;
    payload = refl;
    route = refl;
    correlation = refl;
  },
)
of_intent id source target correlation register unit_id (Intent.invoke operation args options) = (
  record {
    id = refl;
    source = refl;
    target = refl;
    payload = refl;
    route = refl;
    correlation = refl;
  },
  refl,
  refl,
)
of_intent id source target correlation register unit_id (Intent.send channel payload options) = (
  refl,
  record {
    id = refl;
    source = refl;
    target = refl;
    payload = refl;
    route = refl;
    correlation = refl;
  },
  refl,
)
of_intent id source target correlation register unit_id (Intent.subscribe channel options) = (
  refl,
  record {
    id = refl;
    source = refl;
    target = refl;
    payload = refl;
    route = refl;
    correlation = refl;
  },
  refl,
)
of_intent id source target correlation register unit_id (Intent.unsubscribe channel) = (
  refl,
  record {
    id = refl;
    source = refl;
    target = refl;
    payload = refl;
    route = refl;
    correlation = refl;
  },
  refl,
)

-- Whatever a planner accepts it plans with the command's ids, correlation, payload and the name
-- the intent is aimed at; all else it refuses as an unsupported intent.
pub planners_keep :
    (command : Command) (register : AddressedAccessMeta) (unit_id : ℕ)
    → KeepsAll command register unit_id
planners_keep command register unit_id =
    of_intent command.id command.source_device_id command.target_device_id command.correlation
      register unit_id command.intent
