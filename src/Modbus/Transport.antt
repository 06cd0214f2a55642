-- ===== src/Modbus/Transport.antt =====
-- crates/ferredge-proto-modbus/src/transport.rs: the exchange of `TcpTransport` and of
-- `SerialTransport`, with the session that they keep.
pub mod Session
use ferredge.Prelude.{
  ℕ, Bool, true, false, String, Option, none, some, List, Result, ok, err, ◌>>=◌, map_err,
  str_append, to_decimal,
}
use ferredge.Core.Net.{Stream, write_all, format_host_port}
use ferredge.Modbus.Types.{
  ModbusProto, ModbusEndpoint, ModbusSocketConfig, ModbusSerialConfig, tcp, rtu_over_tcp, udp, rtu,
  ascii, ModbusRequest,
}
use ferredge.Modbus.Frame.{read_stream_response}

-- One request and its response over an open stream. `guess` is
-- `rmodbus::guess_response_frame_len`; `finish` turns what was read into the frame.
module _ {S E : Type 0} (stream : Stream S) (guess : List ℕ → ModbusProto → Result ℕ E)
    (label noun : String) (finish : List ℕ → Result (List ℕ) String) (request : ModbusRequest) where
  abbrev request_failure : String → stream.Error → String
  request_failure verb e =
      str_append
        (str_append (str_append (str_append (str_append "failed to " verb) " ") label) " request: ")
        (stream.debug e)

  abbrev pub finished : Option (Result (List ℕ) String × S) → Option (Result (List ℕ) String × S)
  finished none = none
  finished (some (raw, s)) = some (raw >>= finish, s)

  abbrev pub after_flush : Result (Unit {0}) stream.Error × S → Option (Result (List ℕ) String × S)
  after_flush (err e, s) = some (err (request_failure "flush" e), s)
  after_flush (ok _, s) =
      finished
        (read_stream_response guess noun stream.read stream.is_closed stream.debug request.proto s)

  abbrev pub after_write :
      Option (Result (Unit {0}) stream.Error × S) → Option (Result (List ℕ) String × S)
  after_write none = none
  after_write (some (err e, s)) = some (err (request_failure "write" e), s)
  after_write (some (ok _, s)) = after_flush (stream.flush s)

  -- `write_stream_request` and `write_serial_request`, then the reading.
  unfoldable pub converse : S → Option (Result (List ℕ) String × S)
  converse s = after_write (write_all stream request.frame s)

-- The session around a conversation: `C` is a socket or a port, `W` the world. A connection that is
-- only dropped changes nothing.
module _ {C W : Type 0} (persistent : Bool) (open_connection : W → Result C String × W)
    (close : C → W → W) (talk : C × W → Option (Result (List ℕ) String × (C × W))) where
  abbrev pub settled :
      Option (Result (List ℕ) String × (C × W)) → Option (Result (List ℕ) String × Option C × W)
  settled none = none
  settled (some (ok frame, s)) =
      some (ok frame, elim persistent [ true ↦ some s.0 | false ↦ none ], s.1)
  settled (some (err error, s)) = some (err error, none, close s.0 s.1)

  abbrev pub fresh : Result C String × W → Option (Result (List ℕ) String × Option C × W)
  fresh (err error, w) = some (err error, none, w)
  fresh (ok c, w) = settled (talk (c, w))

  abbrev pub close_stale : Option C → W → W
  close_stale none w = w
  close_stale (some stale) w = close stale w

  -- A kept connection is used again if the endpoint is persistent, and closed otherwise.
  unfoldable pub exchange_session : Option C → W → Option (Result (List ℕ) String × Option C × W)
  exchange_session session w = elim persistent [
    | true ↦ elim session [ some c ↦ settled (talk (c, w)) | none ↦ fresh (open_connection w) ]
    | false ↦ fresh (open_connection (close_stale session w))
  ]

-- The sockets of `TcpTransport`, whose world `W` the network is part of.
pub record TcpNet (W : Type 0) : Type 1 where
  pub Socket : Type 0
  pub Error : Type 0
  pub debug : Error → String
  pub stream : Stream (Socket × W)
  pub connect : String → W → Result Socket Error × W
  pub set_read_timeout : Socket → Option ℕ → Result Socket Error
  pub set_write_timeout : Socket → Option ℕ → Result Socket Error
  pub close : Socket → W → W

module _ {W : Type 0} (net : TcpNet W) where
  abbrev timed : Option ℕ → net.Socket → Result net.Socket String
  timed timeout socket = do
    readable ←
        map_err (λ e. str_append "failed to set Modbus TCP read timeout: " (net.debug e))
          (net.set_read_timeout socket timeout)
    map_err (λ e. str_append "failed to set Modbus TCP write timeout: " (net.debug e))
        (net.set_write_timeout readable timeout)

  -- `address` is the host and the port as one text.
  unfoldable pub open_socket : String → Option ℕ → W → Result net.Socket String × W
  open_socket address timeout w =
      let (connected, w') = net.connect address w in
      (
        map_err (λ e. str_append "failed to connect Modbus TCP socket: " (net.debug e)) connected
            >>= timed timeout,
        w',
      )

  module _ {E : Type 0} (guess : List ℕ → ModbusProto → Result ℕ E) where
    abbrev tcp_session :
        ModbusSocketConfig
        → String
        → ModbusRequest
        → Option net.Socket
        → W
        → Option (Result (List ℕ) String × Option net.Socket × W)
    tcp_session config label request session w =
        exchange_session config.options.persistent_session
          (open_socket (format_host_port config.addr config.port) request.timeout) net.close
          (converse net.stream guess label "socket" ok request) session w

    -- `TcpTransport::execute`.
    unfoldable pub tcp_exchange :
        {P : Type 0}
        → ModbusEndpoint P
        → ModbusRequest
        → Option net.Socket
        → W
        → Option (Result (List ℕ) String × Option net.Socket × W)
    unfolding exchange_session converse open_socket format_host_port
    tcp_exchange (tcp config) request session w = tcp_session config "Modbus TCP" request session w
    tcp_exchange (rtu_over_tcp config) request session w =
        tcp_session config "Modbus RTU-over-TCP" request session w
    tcp_exchange _ request session w = some (err "device endpoint is not Modbus TCP", session, w)

-- The ports of `SerialTransport`, opened by the line's configuration `P`.
pub record SerialLine (P W : Type 0) : Type 1 where
  pub Port : Type 0
  pub Error : Type 0
  pub debug : Error → String
  pub stream : Stream (Port × W)
  pub open_line : P → W → Result Port Error × W
  pub close : Port → W → W

module _ {P W : Type 0} (line : SerialLine P W) where
  unfoldable pub open_port : P → String → W → Result line.Port String × W
  open_port config label w =
      let (opened, w') = line.open_line config w in
      (
        map_err
            (λ e.
              str_append (str_append (str_append "failed to open " label) " serial port: ")
                (line.debug e))
            opened,
        w',
      )

  -- `decode_ascii_wire_frame` is the second of the two ways to finish.
  module _ {E : Type 0} (guess : List ℕ → ModbusProto → Result ℕ E)
      (decode_ascii_wire_frame : List ℕ → Result (List ℕ) String) where
    abbrev serial_session :
        ModbusSerialConfig P
        → String
        → (List ℕ → Result (List ℕ) String)
        → ModbusRequest
        → Option line.Port
        → W
        → Option (Result (List ℕ) String × Option line.Port × W)
    serial_session config label finish request session w =
        exchange_session config.options.persistent_session (open_port config.serial label)
          line.close (converse line.stream guess label "serial" finish request) session w

    -- `SerialTransport::execute`.
    unfoldable pub serial_exchange :
        ModbusEndpoint P
        → ModbusRequest
        → Option line.Port
        → W
        → Option (Result (List ℕ) String × Option line.Port × W)
    unfolding exchange_session converse open_port
    serial_exchange (rtu config) request session w =
        serial_session config "Modbus RTU" ok request session w
    serial_exchange (ascii config) request session w =
        serial_session config "Modbus ASCII" decode_ascii_wire_frame request session w
    serial_exchange _ request session w =
        some (err "device endpoint is not Modbus serial", session, w)
