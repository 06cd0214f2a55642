-- ===== src/Modbus/Plan/Equivalence.antt =====
-- The three Modbus planners plan the same accesses, and both request paths build the same requests.
use ferredge.Prelude.{
  ◌≡◌, refl, sym, ◌∙◌, ap, ◌<◌, ◌%◌, String, Option, ◌>>=◌, Option-cases, inl, inr, lookup, arith,
}
use ferredge.Core.Payload.{as_borrowed_id}
use ferredge.Core.Route.{Correlation}
use ferredge.Core.Command.{Intent, Command}
use ferredge.Bridge.Planner.{command_to_register_access, bridge_register_command}
use ferredge.Modbus.Types.{ModbusDevice, options}
use ferredge.Modbus.Rmodbus.{Rmodbus}
use ferredge.Modbus.Convert.Build.{encode_ref}
use ferredge.Modbus.Plan.{
  plan_ref, plan_native, plan_bridge, plan_of_message, native_request, bridge_request,
}

abbrev of_intent : String → Option String → String → Option Correlation → Intent → Command
of_intent id source target correlation intent = record {
  id = id;
  source_device_id = source;
  target_device_id = target;
  intent = intent;
  correlation = correlation;
}

module _ {P : Type 0} (device : ModbusDevice P)
    (unit_fits : (options device.endpoint).unit_id < 256) where
  low_byte : (options device.endpoint).unit_id % 256 ≡ (options device.endpoint).unit_id
  low_byte = omega arith

  plans_of_intent :
      (id : String) (source : Option String) (target : String) (correlation : Option Correlation)
      (intent : Intent)
      → (plan_ref device (of_intent id source target correlation intent)
          ≡ plan_native device (of_intent id source target correlation intent))
        × ((plan_bridge device (of_intent id source target correlation intent) >>= plan_of_message)
            ≡ plan_native device (of_intent id source target correlation intent))
  unfolding plan_ref plan_native plan_bridge plan_of_message command_to_register_access
      bridge_register_command
  plans_of_intent id source target correlation (Intent.read resource opts) =
      elim (Option-cases (lookup resource device.resources)) [
        | inl e ↦ (refl, rw e refl)
        | inr (found, e) ↦ (refl, rw (e, low_byte) refl)
      ]
  plans_of_intent id source target correlation (Intent.write resource payload opts) =
      elim (Option-cases (lookup resource device.resources)) [
        | inl e ↦ (rw (as_borrowed_id payload) refl, rw e refl)
        | inr (found, e) ↦
            (rw (as_borrowed_id payload) refl, rw (e, low_byte, as_borrowed_id payload) refl)
      ]
  plans_of_intent id source target correlation (Intent.invoke _ _ _) = (refl, refl)
  plans_of_intent id source target correlation (Intent.send _ _ _) = (refl, refl)
  plans_of_intent id source target correlation (Intent.subscribe _ _) = (refl, refl)
  plans_of_intent id source target correlation (Intent.unsubscribe _) = (refl, refl)

  -- For a unit id of one byte, the borrowing planner, the owning planner and the way through a bridge
  -- message give the same plan or the same error for every command.
  pub planners_agree :
      (command : Command)
      → (plan_ref device command ≡ plan_native device command)
        × ((plan_bridge device command >>= plan_of_message) ≡ plan_native device command)
  planners_agree command =
      plans_of_intent command.id command.source_device_id command.target_device_id
        command.correlation command.intent

  -- So the direct request and the request through the bridge are the same for every command.
  pub requests_agree :
      (rm : Rmodbus) (command : Command)
      → native_request rm device command ≡ bridge_request rm device command
  unfolding native_request bridge_request
  requests_agree rm command =
      let (direct, bridged) = planners_agree command in
      ap (λ plan. plan >>= encode_ref rm device) (direct ∙ sym bridged)
