-- ===== src/Modbus/Codec/Outcome.antt =====
-- What the bridge sees of a Modbus response.
use ferredge.Prelude.{
  ap, ◌≡◌, refl, ℕ, String, Option, none, some, List, Result, ok, err, Option-cases, Result-cases,
  inl, inr,
}
use ferredge.Core.Protocol as Protocol
use ferredge.Core.Payload.{PayloadValue}
use ferredge.Core.Command.{Command, Intent}
use ferredge.Core.Route.{correlation_as_borrowed_id}
use ferredge.Core.Route.Correlated.{IsCorrelated}
use ferredge.Bridge.Message.{BridgeMessage, BridgeResult, BridgeOutcome}
use ferredge.Bridge.Planner.Outward.{bridge_result, routed_result_to_bridge, outcome_of}
use ferredge.Modbus.Types.{
  ModbusDevice, ModbusResponse, ModbusCommandConversionError, unsupported_intent,
}
use ferredge.Modbus.Rmodbus.{Rmodbus}
use ferredge.Modbus.Codec.{
  payload, addressed_resource, correlation_of, decode_routed, decode_bridge,
}

-- One result with the value, from the device and for the command, correlated as the command asks or by
-- its id and the resource.
abbrev pub IsResultOf :
    {P : Type 0}
    → ModbusDevice P
    → Command
    → String
    → Result PayloadValue ModbusCommandConversionError
    → Result BridgeMessage ModbusCommandConversionError
    → Type 0
IsResultOf device command resource (err x) answer = answer ≡ err x
IsResultOf device command resource (ok value) answer =
    (result : BridgeResult) × (answer ≡ ok (BridgeMessage.result result))
    × (result.outcome ≡ BridgeOutcome.success (some value))
    × (result.meta.source ≡ record { device_id = device.id; protocol = Protocol.modbus })
    × (result.meta.command_id ≡ command.id)
    × IsCorrelated command.id resource command.correlation result.meta.correlation

-- The answer, by what the command wants done.
abbrev pub IsBridged :
    {P : Type 0}
    → ModbusDevice P
    → Command
    → Intent
    → Result PayloadValue ModbusCommandConversionError
    → Result BridgeMessage ModbusCommandConversionError
    → Type 0
IsBridged device command (Intent.read resource _) value answer =
    IsResultOf device command resource value answer
IsBridged device command (Intent.write resource _ _) value answer =
    IsResultOf device command resource value answer
IsBridged device command _ value answer = answer ≡ err unsupported_intent

module _ (rm : Rmodbus) (from_utf8 : List ℕ → Option String) {P : Type 0} (device : ModbusDevice P)
    (command : Command) (response : ModbusResponse) where
  correlation_of-IsCorrelated :
      (resource : String)
      → IsCorrelated command.id resource command.correlation
          (correlation_of rm from_utf8 command resource)
  correlation_of-IsCorrelated resource = elim (Option-cases command.correlation) [
    | inl e ↦ rw (e, IsCorrelated) refl
    | inr (own, e) ↦ rw (e, IsCorrelated) (ap some (correlation_as_borrowed_id own))
  ]

  addressed-IsResultOf :
      (resource : String)
      → addressed_resource rm from_utf8 command.intent ≡ some resource
      → IsResultOf device command resource
          (payload rm from_utf8 response)
          (decode_bridge rm from_utf8 device command response)
  unfolding decode_bridge decode_routed routed_result_to_bridge bridge_result outcome_of
  addressed-IsResultOf resource e = elim (Result-cases (payload rm from_utf8 response)) [
    | inr (x, f) ↦ rw (e, f, IsResultOf, decode_bridge, decode_routed) refl
    | inl (value, f) ↦
        rw (e, f, IsResultOf, decode_bridge, decode_routed)
          (_, refl, refl, refl, refl, correlation_of-IsCorrelated resource)
  ]

  refused :
      addressed_resource rm from_utf8 command.intent ≡ none
      → decode_bridge rm from_utf8 device command response ≡ err unsupported_intent
  unfolding decode_bridge decode_routed
  refused e = rw (e, decode_bridge, decode_routed) refl

  by_intent :
      (intent : Intent)
      → command.intent ≡ intent
      → IsBridged device command intent
          (payload rm from_utf8 response)
          (decode_bridge rm from_utf8 device command response)
  by_intent (Intent.read resource options) e =
      addressed-IsResultOf resource (ap (addressed_resource rm from_utf8) e)
  by_intent (Intent.write resource value options) e =
      addressed-IsResultOf resource (ap (addressed_resource rm from_utf8) e)
  by_intent (Intent.invoke _ _ _) e = refused (ap (addressed_resource rm from_utf8) e)
  by_intent (Intent.send _ _ _) e = refused (ap (addressed_resource rm from_utf8) e)
  by_intent (Intent.subscribe _ _) e = refused (ap (addressed_resource rm from_utf8) e)
  by_intent (Intent.unsubscribe _) e = refused (ap (addressed_resource rm from_utf8) e)

  -- A response to a read or a write becomes, if `payload` reads a value from it, one successful bridge
  -- result with that value, from the device and for the command, correlated as the command asks or by
  -- its id and resource; if not, the error is that of `payload`; any other intent is refused.
  pub decode_bridge-IsBridged :
      IsBridged device command command.intent
        (payload rm from_utf8 response)
        (decode_bridge rm from_utf8 device command response)
  decode_bridge-IsBridged = by_intent command.intent refl
