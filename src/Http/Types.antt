-- ===== src/Http/Types.antt =====
-- crates/ferredge-proto-http/src: the types of lib.rs, attributes.rs, endpoint.rs and meta.rs.
use ferredge.Prelude.{ℕ, String, Option, List}
use ferredge.Core.Protocol.{ProtocolId}
use ferredge.Core.Headers.{Headers}
use ferredge.Core.Payload.{PayloadValue}
use ferredge.Core.Device.{Device}
use ferredge.Bridge.Message.{RequestResponseAction, BridgePlannerError}

pub record HttpRequest : Type 0 where
  pub method : String
  pub path : String
  pub body : Option (List ℕ)
  pub headers : List (String × String)

pub record HttpResponse : Type 0 where
  pub status_code : ℕ
  pub headers : List (String × String)
  pub body : List ℕ

pub data HttpCommandConversionError : Type 0 where
  unsupported_intent : HttpCommandConversionError
  unknown_resource : String → HttpCommandConversionError
  invalid_payload : String → HttpCommandConversionError
  bridge : BridgePlannerError → HttpCommandConversionError
  invalid_bridge_message : HttpCommandConversionError
  foreign_extensions : ProtocolId → HttpCommandConversionError
  invalid_extension_value : String → ℕ → HttpCommandConversionError
  invalid_extension_type : String → HttpCommandConversionError

pub record HttpNativePlan : Type 0 where
  pub resource : String
  pub action : RequestResponseAction
  pub payload : Option PayloadValue
  pub method : Option String
  pub path : Option String
  pub content_type : Option String
  pub headers : List (String × String)

pub record HttpMeta : Type 0 where
  pub method : Option String
  pub path : Option String
  pub status_code : Option ℕ
  pub content_type : Option String
  pub headers : Option Headers

pub record HttpResourceAttributes : Type 0 where
  pub slug : String
  pub method : String
  pub headers : Option (List (String × String))

pub record HttpEndpointConfig : Type 0 where
  pub url : String

abbrev pub HttpDevice : Type 0
HttpDevice = Device HttpResourceAttributes HttpEndpointConfig
