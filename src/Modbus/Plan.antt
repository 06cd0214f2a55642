-- ===== src/Modbus/Plan.antt =====
-- crates/ferredge-proto-modbus/src/types.rs: the planners, `native_request` and `bridge_request`.
pub mod Equivalence
use ferredge.Prelude.{
  ℕ, ◌%◌, String, Option, none, some, Result, ok, err, ◌>>=◌, map_err, ok_or, lookup, map_option,
  unwrap_or,
}
use ferredge.Core.Payload as Payload
use ferredge.Core.Payload.{PayloadValue}
use ferredge.Core.Route.{Route, AddressedAccessMeta}
use ferredge.Core.Command.{Intent, Command}
use ferredge.Core.Device.{DeviceResource}
use ferredge.Bridge.Message.{BridgeMessage, BridgeCommand, BridgeOp, RegisterAccessAction}
use ferredge.Bridge.Planner.{command_to_register_access}
use ferredge.Modbus.Types.{
  ModbusRegisterKind, ModbusResourceAttributes, ModbusDevice, ModbusNativePlan, ModbusRequest,
  ModbusCommandConversionError, unsupported_intent, unknown_resource, invalid_bridge_message,
  bridge, options,
}
use ferredge.Modbus.Rmodbus.{Rmodbus}
use ferredge.Modbus.Convert.Build.{encode_ref}

abbrev pub domain_of : ModbusRegisterKind → String
domain_of ModbusRegisterKind.coil = "coil"
domain_of ModbusRegisterKind.discrete_input = "discrete-input"
domain_of ModbusRegisterKind.holding_register = "holding-register"
domain_of ModbusRegisterKind.input_register = "input-register"

unfoldable pub register_meta : ModbusResourceAttributes → AddressedAccessMeta
register_meta attributes = record {
  address = attributes.address;
  domain = domain_of attributes.register_kind;
  quantity = attributes.quantity;
}

module _ {P : Type 0} (device : ModbusDevice P) where
  -- `resources.get(resource).ok_or_else(..)?` and what follows for the resource's register.
  abbrev pub resource_register :
      String → Result (DeviceResource ModbusResourceAttributes) ModbusCommandConversionError
  resource_register resource = ok_or (lookup resource device.resources) (unknown_resource resource)

  abbrev pub plan_for :
      String
      → RegisterAccessAction
      → Option PayloadValue
      → Result ModbusNativePlan ModbusCommandConversionError
  plan_for resource action payload = do
    found ← resource_register resource
    ok (record {
      resource = resource;
      action = action;
      payload = payload;
      register = register_meta found.resource_attributes;
      unit_id = (options device.endpoint).unit_id;
    })

  unfoldable pub plan_ref : Command → Result ModbusNativePlan ModbusCommandConversionError
  unfolding lookup register_meta options
  plan_ref command = elim command.intent [
    | Intent.read resource _ ↦ plan_for resource RegisterAccessAction.read none
    | Intent.write resource payload _ ↦
        plan_for resource RegisterAccessAction.write (some (Payload.as_borrowed payload))
    | _ ↦ err unsupported_intent
  ]

  -- `ProtocolPlanner<NativeOutbound>::plan`, which keeps the payload instead of borrowing it.
  unfoldable pub plan_native : Command → Result ModbusNativePlan ModbusCommandConversionError
  unfolding lookup register_meta options
  plan_native command = elim command.intent [
    | Intent.read resource _ ↦ plan_for resource RegisterAccessAction.read none
    | Intent.write resource payload _ ↦ plan_for resource RegisterAccessAction.write (some payload)
    | _ ↦ err unsupported_intent
  ]

  -- `ProtocolPlanner<BridgeOutbound>::plan`, and what `bridge_request` does up to the message.
  unfoldable pub plan_bridge : Command → Result BridgeMessage ModbusCommandConversionError
  unfolding lookup register_meta options command_to_register_access
  plan_bridge command =
      (elim command.intent [
        | Intent.read resource _ ↦ (do
          found ← resource_register resource
          ok (register_meta found.resource_attributes))
        | Intent.write resource _ _ ↦ (do
          found ← resource_register resource
          ok (register_meta found.resource_attributes))
        | _ ↦ err unsupported_intent
      ])
      >>= λ register.
          map_err bridge
            (command_to_register_access command register (options device.endpoint).unit_id)

abbrev plan_of_access :
    BridgeCommand
    → RegisterAccessAction
    → String
    → AddressedAccessMeta
    → Option ℕ
    → ModbusNativePlan
plan_of_access command action resource access node_id = record {
  resource = resource;
  action = action;
  payload = map_option Payload.as_borrowed command.payload;
  register = access;
  unit_id = unwrap_or node_id 1 % 256;
}

abbrev plan_of_route :
    BridgeCommand
    → RegisterAccessAction
    → Route
    → Result ModbusNativePlan ModbusCommandConversionError
plan_of_route command action (Route.addressed_access resource access node_id) =
    ok (plan_of_access command action resource access node_id)
plan_of_route command action _ = err invalid_bridge_message

abbrev plan_of_operation :
    BridgeCommand → BridgeOp → Result ModbusNativePlan ModbusCommandConversionError
plan_of_operation command (BridgeOp.register_access action) =
    plan_of_route command action command.route
plan_of_operation command _ = err invalid_bridge_message

-- `TryFrom<&BridgeMessage> for ModbusNativePlan`; `as u8` keeps the low eight bits.
unfoldable pub plan_of_message :
    BridgeMessage → Result ModbusNativePlan ModbusCommandConversionError
plan_of_message (BridgeMessage.command command) = plan_of_operation command command.operation
plan_of_message _ = err invalid_bridge_message

module _ (rm : Rmodbus) {P : Type 0} (device : ModbusDevice P) where
  unfoldable pub native_request : Command → Result ModbusRequest ModbusCommandConversionError
  unfolding plan_ref encode_ref
  native_request command = plan_ref device command >>= encode_ref rm device

  unfoldable pub bridge_request : Command → Result ModbusRequest ModbusCommandConversionError
  unfolding plan_bridge plan_of_message encode_ref
  bridge_request command = plan_bridge device command >>= plan_of_message >>= encode_ref rm device
