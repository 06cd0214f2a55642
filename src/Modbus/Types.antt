-- ===== src/Modbus/Types.antt =====
-- crates/ferredge-proto-modbus/src: attributes.rs, endpoint.rs and the types of types.rs. A
-- `Duration` is its nanoseconds; an `f32` is its 32-bit pattern.
use ferredge.Prelude.{ℕ, Bool, String, Option, List}
use ferredge.Prelude.Int.{ℤ}
use ferredge.Core.Backoff.{BackoffStrategy}
use ferredge.Core.Device.{Device}
use ferredge.Core.Payload.{PayloadValue}
use ferredge.Core.Route.{AddressedAccessMeta}
use ferredge.Bridge.Message.{BridgePlannerError, RegisterAccessAction}

-- The framings of the rmodbus package.
pub data ModbusProto : Type 0 where
  rtu ascii tcp_udp : ModbusProto

pub data ModbusRegisterKind : Type 0 where
  coil discrete_input holding_register input_register : ModbusRegisterKind

pub data ModbusValueCodec : Type 0 where
  bool bits u16 i16 u32_be u32_le i32_be i32_le f32_be f32_le bytes utf8_string : ModbusValueCodec

pub record ModbusResourceAttributes : Type 0 where
  pub address : ℕ
  pub register_kind : ModbusRegisterKind
  pub codec : ModbusValueCodec
  pub quantity : Option ℕ
  pub description : Option String

pub record ModbusReconnectConfig : Type 0 where
  pub enabled : Bool
  pub initial_delay : Option ℕ
  pub max_delay : Option ℕ
  pub strategy : BackoffStrategy
  pub multiplier : ℕ
  pub max_attempts : ℕ
  pub retry_writes : Bool

pub record ModbusClientOptions : Type 0 where
  pub unit_id : ℕ
  pub request_timeout : Option ℕ
  pub persistent_session : Bool
  pub reconnect : ModbusReconnectConfig

-- The three socket families have configurations of the same fields.
pub record ModbusSocketConfig : Type 0 where
  pub addr : String
  pub port : ℕ
  pub options : ModbusClientOptions

-- `serial`, the line's configuration, is handed to the serial port unread.
pub record ModbusSerialConfig (SerialPortConfig : Type 0) : Type 0 where
  pub serial : SerialPortConfig
  pub options : ModbusClientOptions

pub data ModbusEndpoint (SerialPortConfig : Type 0) : Type 0 where
  tcp rtu_over_tcp udp : ModbusSocketConfig → ModbusEndpoint SerialPortConfig
  rtu ascii : ModbusSerialConfig SerialPortConfig → ModbusEndpoint SerialPortConfig

module _ {SerialPortConfig : Type 0} where
  unfoldable pub options : ModbusEndpoint SerialPortConfig → ModbusClientOptions
  options (tcp config) = config.options
  options (rtu_over_tcp config) = config.options
  options (udp config) = config.options
  options (rtu config) = config.options
  options (ascii config) = config.options

  unfoldable pub proto : ModbusEndpoint SerialPortConfig → ModbusProto
  proto (tcp _) = tcp_udp
  proto (udp _) = tcp_udp
  proto (rtu_over_tcp _) = rtu
  proto (rtu _) = rtu
  proto (ascii _) = ascii

pub data ModbusParserSeed : Type 0 where
  -- The address and the quantity.
  read_coils read_discretes read_holdings read_inputs : ℕ → ℕ → ModbusParserSeed
  write_single_coil : ℕ → Bool → ModbusParserSeed
  write_single_holding : ℕ → ℕ → ModbusParserSeed
  write_multiple_coils write_multiple_holdings write_multiple_holdings_bytes :
      ℕ → List ℕ → ModbusParserSeed
  write_string : ℕ → String → ModbusParserSeed

pub data ModbusResponseDecoder : Type 0 where
  ack bool u16 i16 u32_be u32_le i32_be i32_le f32_be f32_le bytes utf8_string :
      ModbusResponseDecoder
  bits : ℕ → ModbusResponseDecoder

pub data ModbusValue : Type 0 where
  ack : ModbusValue
  bool : Bool → ModbusValue
  bits : List Bool → ModbusValue
  u16 u32 f32 bytes : List ℕ → ModbusValue
  i16 i32 : List ℤ → ModbusValue
  utf8_string : String → ModbusValue

pub data ModbusCommandConversionError : Type 0 where
  unsupported_intent invalid_bridge_message : ModbusCommandConversionError
  unknown_resource invalid_resource invalid_payload unsupported_write :
      String → ModbusCommandConversionError
  bridge : BridgePlannerError → ModbusCommandConversionError

pub record ModbusRequest : Type 0 where
  pub resource : String
  pub is_write : Bool
  pub frame : List ℕ
  pub proto : ModbusProto
  pub unit_id : ℕ
  pub parser_seed : ModbusParserSeed
  pub decoder : ModbusResponseDecoder
  pub timeout : Option ℕ

pub record ModbusResponse : Type 0 where
  pub frame : List ℕ
  pub proto : ModbusProto
  pub unit_id : ℕ
  pub parser_seed : ModbusParserSeed
  pub decoder : ModbusResponseDecoder

pub record ModbusNativePlan : Type 0 where
  pub resource : String
  pub action : RegisterAccessAction
  pub payload : Option PayloadValue
  pub register : AddressedAccessMeta
  pub unit_id : ℕ

abbrev pub ModbusDevice : Type 0 → Type 0
ModbusDevice SerialPortConfig = Device ModbusResourceAttributes (ModbusEndpoint SerialPortConfig)
