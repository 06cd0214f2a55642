-- ===== src/Witness/Data.antt =====
-- A thermostat reached by HTTP and a pump reached by Modbus.
use ferredge.Prelude.{ℕ, true, false, String, Option, none, some, List, [], ◌∷◌, Result, ok}
use ferredge.Core.Protocol as Protocol
use ferredge.Core.Meta.{MetaValue, TransportMeta}
use ferredge.Core.Payload.{PayloadValue}
use ferredge.Core.Backoff.{BackoffStrategy}
use ferredge.Core.Command.{Intent, Command, RequestOptions}
use ferredge.Core.Device.{DeviceStatus}
use ferredge.Http.Types.{HttpDevice, HttpResponse}
use ferredge.Modbus.Types.{
  ModbusDevice, ModbusEndpoint, ModbusRegisterKind, ModbusValueCodec, ModbusReconnectConfig,
  ModbusRequest, ModbusParserSeed, ModbusResponseDecoder, ModbusProto,
}
use ferredge.Modbus.Rmodbus.{Rmodbus, ErrorKind}

abbrev pub capture : TransportMeta
capture = record {
  protocol = Protocol.http;
  headers = some (record { key = "X-Trace"; value = "7" } ∷ []);
  entries =
      ("path", MetaValue.str "/v2/setpoint")
      ∷ ("color", MetaValue.u64 3)
      ∷ ("path", MetaValue.bool true)
      ∷ [];
}

abbrev pub request_options : RequestOptions
request_options = record {
  headers = record { key = "Accept"; value = "text/plain" } ∷ [];
  content_type = some "text/plain";
  method = none;
  path = none;
  extensions = some capture;
}

abbrev pub command_of : Intent → Command
command_of intent = record {
  id = "cmd-1";
  source_device_id = some "panel";
  target_device_id = "thermostat";
  intent = intent;
  correlation = none;
}

abbrev pub write_setpoint : Command
write_setpoint = command_of (Intent.write "setpoint" (PayloadValue.string "21") request_options)

abbrev pub thermostat : HttpDevice
thermostat = record {
  id = "thermostat";
  name = "Thermostat";
  status = DeviceStatus.online;
  endpoint = record { url = "http://thermostat.local" };
  metadata = none;
  max_connections = none;
  resources =
      (
        "setpoint",
        record {
          name = "setpoint";
          resource_attributes = record {
            slug = "/setpoint";
            method = "PUT";
            headers = some (("accept", "application/json") ∷ []);
          };
          unit = none;
          permission = none;
        },
      )
      ∷ [];
  message_endpoints = [];
}

abbrev pub refused : HttpResponse
refused = record {
  status_code = 503;
  headers = ("Content-Type", "text/plain") ∷ [];
  body = 98 ∷ 117 ∷ 115 ∷ 121 ∷ [];
}

abbrev pub no_text : List ℕ → Option String
no_text bytes = none

abbrev pub retries : ModbusReconnectConfig
retries = record {
  enabled = true;
  initial_delay = some 100000000;
  max_delay = some 500000000;
  strategy = BackoffStrategy.exponential;
  multiplier = 2;
  max_attempts = 3;
  retry_writes = false;
}

abbrev pub pump : ModbusDevice String
pump = record {
  id = "pump";
  name = "Pump";
  status = DeviceStatus.online;
  endpoint = ModbusEndpoint.tcp (record {
    addr = "pump.local";
    port = 502;
    options = record {
      unit_id = 17;
      request_timeout = some 1000000000;
      persistent_session = true;
      reconnect = retries;
    };
  });
  metadata = none;
  max_connections = none;
  resources =
      (
        "speed",
        record {
          name = "speed";
          resource_attributes = record {
            address = 40;
            register_kind = ModbusRegisterKind.holding_register;
            codec = ModbusValueCodec.u16;
            quantity = none;
            description = none;
          };
          unit = some "rpm";
          permission = none;
        },
      )
      ∷ [];
  message_endpoints = [];
}

abbrev pub write_speed : Command
write_speed = command_of (Intent.write "speed" (PayloadValue.u64 1500) request_options)

-- A stand-in for the package: the frame tells the call, and its own kind of request is the unit id.
abbrev frame_for : ℕ → ℕ → List ℕ → Result (ℕ × List ℕ) ErrorKind
frame_for unit_id function rest = ok (unit_id, unit_id ∷ function ∷ rest)

abbrev pub toy : Rmodbus
toy = record {
  Request = ℕ;
  new = λ unit_id framing. unit_id;
  generate_get_coils = λ r a q. frame_for r 1 (a ∷ q ∷ []);
  generate_get_discretes = λ r a q. frame_for r 2 (a ∷ q ∷ []);
  generate_get_holdings = λ r a q. frame_for r 3 (a ∷ q ∷ []);
  generate_get_inputs = λ r a q. frame_for r 4 (a ∷ q ∷ []);
  generate_set_coil = λ r a v. frame_for r 5 (a ∷ []);
  generate_set_holding = λ r a v. frame_for r 6 (a ∷ v ∷ []);
  generate_set_coils_bulk = λ r a vs. frame_for r 15 (a ∷ vs);
  generate_set_holdings_bulk = λ r a vs. frame_for r 16 (a ∷ vs);
  generate_set_holdings_bulk_from_slice = λ r a vs. frame_for r 16 (a ∷ vs);
  generate_set_holdings_string = λ r a s. frame_for r 16 (a ∷ []);
  generate_ascii_frame = λ frame. ok (58 ∷ frame);
  debug = λ e. "Oob";
  parse_ok = λ r frame. ok tt;
  parse_bool_u8 = λ r frame. ok frame;
  parse_u16 = λ r frame. ok frame;
  parse_i16 = λ r frame. ok [];
  parse_u32_be = λ r frame. ok frame;
  parse_u32_le = λ r frame. ok frame;
  parse_i32_be = λ r frame. ok [];
  parse_i32_le = λ r frame. ok [];
  parse_f32_be = λ r frame. ok frame;
  parse_f32_le = λ r frame. ok frame;
}

abbrev pub speed_request : ModbusRequest
speed_request = record {
  resource = "speed";
  is_write = true;
  frame = 17 ∷ 6 ∷ 40 ∷ 1500 ∷ [];
  proto = ModbusProto.tcp_udp;
  unit_id = 17;
  parser_seed = ModbusParserSeed.write_single_holding 40 1500;
  decoder = ModbusResponseDecoder.ack;
  timeout = some 1000000000;
}
