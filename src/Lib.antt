-- ===== src/Lib.antt =====
-- Ferredge drives field devices over several protocols. An application's command (crates/ferredge-
-- core) either goes to a protocol driver directly or becomes a bridge message (crates/ferredge-
-- bridge), from which a driver plans the same native request; a native response becomes a routed
-- result and again a bridge message. This library models the core, the bridge and the HTTP, Modbus and
-- MQTT adapters.
--
-- Files, by the code that they model:
--   Core/Command, Core/Route, Core/Payload, Core/Device: the data of crates/ferredge-core/src/command.rs,
--     routed.rs, route.rs and device.rs, and the borrowing conversions.
--   Core/Protocol, Core/Meta, Core/Headers: crates/ferredge-core/src/meta.rs and headers.rs, the capture
--     of protocol detail that travels with a message, and its headers.
--   Core/Backoff: the reconnect policy of crates/ferredge-core/src/device.rs.
--   Core/Net: `write_all_socket` and the host texts of crates/ferredge-core/src/net.rs.
--   Bridge/Message, Bridge/Planner, Bridge/Planner/Outward: crates/ferredge-bridge/src; each planner
--     function keeps its name.
--   Http/*: crates/ferredge-proto-http/src. Meta is `HttpMeta` and its conversions, Plan the planners and
--     the plan of a bridge message, Encode `HttpRequestEncoder`, Request `native_request` and
--     `bridge_request`, Decode the two conversions of a decoded response, Wire and Wire/Send the endpoint, the
--     response and `send_request` of handler.rs, WireText the methods of `str` that it calls.
--   Modbus/*: crates/ferredge-proto-modbus/src. Types has the data, Reconnect the retry policy of
--     endpoint.rs, Value and Float the values and words of convert.rs and codec.rs, Convert and
--     Convert/Build the requests of convert.rs, Codec the responses of codec.rs, Plan the planners of
--     types.rs, Frame, Driver, Transport and StackTransport the reading, the attempts, the exchanges and the
--     combined transport of transport.rs.
--   Mqtt/*: crates/ferredge-proto-mqtt/src. Types has the data of types.rs, endpoint.rs and meta.rs, Capture
--     and Meta `MqttMeta` and its conversions, Plan the planners of lib.rs, View and Build the semantics and
--     the packets of convert.rs, Request `native_packet_request` and `bridge_packet_request`. Of runtime.rs,
--     Inbound, Results and Decode are `MqttInboundDecoder`, Connect the CONNECT packet and the CONNACK
--     state, Auth the enhanced authentication, PacketId the identifiers given at sending, Session the events
--     of a connection and Reading its reading, keepalive and end. Action is the steps of a session. Of
--     lib.rs, Recovery is what is kept for a reconnect, DriverState and Driver `MqttDriver` with connecting
--     and sending, Replay the replay after a reconnect, Listening a command at the listener's session.
--   Witness/*: concrete devices and frames, and the definitions run on them.
-- The children of these modules hold the proofs, under the names of what they are about.
--
-- How the code is read. A struct is a record and an enum a data type; identifiers, `Cow`s and
-- references are the values that they hold; a map is an association list; machine integers are numbers
-- with their bounds and saturations written out; a `Duration` is its nanoseconds; floats are bit
-- patterns, with the conversions between them defined on the bits. `Result` and its `?` are
-- Prelude/Outcome. Awaiting is sequencing: sockets, ports, clocks and locks act on an explicit state
-- of the world.
--
-- Parameters. The rmodbus package is the record Modbus/Rmodbus and the two functions `guess` and
-- `decode_ascii_wire_frame`; nothing is assumed of it. The mqtt_protocol_core package is the record
-- Mqtt/Package `MqttCore` with its packets; nothing is assumed of it. The network, the channels
-- to and from the MQTT driver's listener, the time that passes between polls and what other tasks do
-- during a sleep are Mqtt/DriverState `Surroundings`. `json` is the JSON encoder, `lossy` and `from_utf8` the standard library's readings
-- of bytes as text. Streams, sockets, ports and transports are records of their methods, with no
-- assumption but, where it is named, that `write` gives the number of bytes written. `from_utf8` is
-- the standard library's check.
--
-- Bounds. `read_loop` runs on fuel, one round more than the framing's limit, since every round that
-- goes on adds a byte; `write_loop` on as many rounds as bytes; the loop over attempts is structural
-- in the attempts left. The driver's waits for a CONNACK and for its session run on fuel too, and no
-- bound on what others do is assumed; with a session there one round is enough. The polls for the
-- listener's response run on fuel, and 76 are enough where each sleep takes its 10 ms. Reading an HTTP
-- response to its end runs on fuel, one round a read. `to_decimal` writes 20 digits, enough for 64
-- bits.
--
-- Not modelled: the task of the MQTT listener, the failure of a lock, the Zenoh adapter, the runtime
-- adapters and test support, `into_owned` conversions (which keep the value), and display code.
pub mod Prelude
pub mod Core
pub mod Bridge
pub mod Http
pub mod Modbus
pub mod Mqtt
pub mod Witness
