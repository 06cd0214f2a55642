-- ===== src/Core/Protocol.antt =====
-- crates/ferredge-core/src/meta.rs: `ProtocolId` and its constants.
use ferredge.Prelude.{String}

-- A newtype over text.
abbrev pub ProtocolId : Type 0
ProtocolId = String

abbrev pub mqtt : ProtocolId
mqtt = "mqtt"

abbrev pub http : ProtocolId
http = "http"

abbrev pub modbus : ProtocolId
modbus = "modbus"
