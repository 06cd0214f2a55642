-- ===== src/Modbus/Transport/Session.antt =====
-- What is left of the session after an exchange.
use ferredge.Prelude.{
  ◌≡◌, refl, ℕ, Bool, true, false, ◌&&◌, String, Option, none, some, List, Result, ok, err, is_ok,
  is_some, length, arith,
}
use ferredge.Core.Net.{Stream, format_host_port, write_all}
use ferredge.Core.Net.WriteAll.{IsAnswered, write_loop-ends}
use ferredge.Modbus.Types.{
  ModbusProto, ModbusEndpoint, ModbusRequest, tcp, rtu_over_tcp, rtu, ascii,
}
use ferredge.Modbus.Frame.Reading.{IsAnswer, read_stream_response-IsAnswer}
use ferredge.Modbus.Transport.{
  finished, after_flush, after_write, converse, settled, fresh, exchange_session, TcpNet,
  tcp_exchange, SerialLine, serial_exchange, open_socket, open_port,
}

module _ {S : Type 0} (stream : Stream S) where
  module _ {E : Type 0} (guess : List ℕ → ModbusProto → Result ℕ E) (label noun : String)
      (finish : List ℕ → Result (List ℕ) String) (request : ModbusRequest) where
    finished-ends :
        (answer : Option (Result (List ℕ) String × S))
        → IsAnswer request.proto answer
        → IsAnswered (finished stream guess label noun finish request answer)
    finished-ends none answered = answered
    finished-ends (some (r, s)) answered = tt

    after_flush-ends :
        (r : Result (Unit {0}) stream.Error) (s : S)
        → IsAnswered (after_flush stream guess label noun finish request (r, s))
    after_flush-ends (err e) s = tt
    after_flush-ends (ok u) s = finished-ends _ (
        read_stream_response-IsAnswer guess noun stream.read stream.is_closed stream.debug
          request.proto s)

    after_write-ends :
        (answer : Option (Result (Unit {0}) stream.Error × S))
        → IsAnswered answer
        → IsAnswered (after_write stream guess label noun finish request answer)
    after_write-ends none answered = answered
    after_write-ends (some (err e, s)) answered = tt
    after_write-ends (some (ok u, s)) answered =
        after_flush-ends (stream.flush s).0 (stream.flush s).1

    converse-ends : (s : S) → IsAnswered (converse stream guess label noun finish request s)
    unfolding converse write_all
    converse-ends s =
        after_write-ends (write_all stream request.frame s)
          (write_loop-ends stream (length request.frame) request.frame s (omega arith))

-- There is an answer, and with it a kept connection exactly if there may be one and all went well.
abbrev pub IsSettled :
    {C W : Type 0} → Bool → Option (Result (List ℕ) String × Option C × W) → Type 0
IsSettled persistent none = ⊥
IsSettled persistent (some (r, session, w)) = is_some session ≡ (persistent && is_ok r)

module _ {C W : Type 0} (persistent : Bool) (open_connection : W → Result C String × W)
    (close : C → W → W) (talk : C × W → Option (Result (List ℕ) String × (C × W)))
    (talks : (s : C × W) → IsAnswered (talk s)) where
  settled-IsSettled :
      (answer : Option (Result (List ℕ) String × (C × W)))
      → IsAnswered answer
      → IsSettled persistent (settled persistent open_connection close talk answer)
  settled-IsSettled none answered = answered
  settled-IsSettled (some (ok frame, s)) answered = ground arith
  settled-IsSettled (some (err error, s)) answered = ground arith

  fresh-IsSettled :
      (r : Result C String) (w : W)
      → IsSettled persistent (fresh persistent open_connection close talk (r, w))
  fresh-IsSettled (err error) w = ground arith
  fresh-IsSettled (ok c) w = settled-IsSettled (talk (c, w)) (talks (c, w))

exchange_session-IsSettled :
    {C W : Type 0} (persistent : Bool) (open_connection : W → Result C String × W)
    (close : C → W → W) (talk : C × W → Option (Result (List ℕ) String × (C × W)))
    → ((s : C × W) → IsAnswered (talk s))
    → (session : Option C) (w : W)
    → IsSettled persistent (exchange_session persistent open_connection close talk session w)
unfolding exchange_session
exchange_session-IsSettled true open_connection close talk talks none w =
    fresh-IsSettled true open_connection close talk talks (open_connection w).0
      (open_connection w).1
exchange_session-IsSettled true open_connection close talk talks (some c) w =
    settled-IsSettled true open_connection close talk talks (talk (c, w)) (talks (c, w))
exchange_session-IsSettled false open_connection close talk talks none w =
    fresh-IsSettled false open_connection close talk talks (open_connection w).0
      (open_connection w).1
exchange_session-IsSettled false open_connection close talk talks (some c) w =
    fresh-IsSettled false open_connection close talk talks (open_connection (close c w)).0
      (open_connection (close c w)).1

-- The answer of one endpoint: settled for the families that the transport serves, an error that
-- leaves the session and the world alone for the others.
abbrev pub IsTcpAnswer :
    {P C W : Type 0}
    → ModbusEndpoint P
    → Option C
    → W
    → Option (Result (List ℕ) String × Option C × W)
    → Type 0
IsTcpAnswer (tcp config) session w answer = IsSettled config.options.persistent_session answer
IsTcpAnswer (rtu_over_tcp config) session w answer =
    IsSettled config.options.persistent_session answer
IsTcpAnswer endpoint session w answer =
    answer ≡ some (err "device endpoint is not Modbus TCP", session, w)

abbrev pub IsSerialAnswer :
    {P C W : Type 0}
    → ModbusEndpoint P
    → Option C
    → W
    → Option (Result (List ℕ) String × Option C × W)
    → Type 0
IsSerialAnswer (rtu config) session w answer = IsSettled config.options.persistent_session answer
IsSerialAnswer (ascii config) session w answer = IsSettled config.options.persistent_session answer
IsSerialAnswer endpoint session w answer =
    answer ≡ some (err "device endpoint is not Modbus serial", session, w)

-- An exchange over TCP always ends, however the network behaves, and leaves a kept socket exactly if
-- the endpoint is persistent and the exchange went well; a foreign endpoint is refused and changes
-- nothing.
pub tcp_exchange-IsTcpAnswer :
    {W E P : Type 0} (net : TcpNet W) (guess : List ℕ → ModbusProto → Result ℕ E)
    (endpoint : ModbusEndpoint P) (request : ModbusRequest) (session : Option net.Socket) (w : W)
    → IsTcpAnswer endpoint session w (tcp_exchange net guess endpoint request session w)
unfolding tcp_exchange
tcp_exchange-IsTcpAnswer net guess (tcp config) request session w =
    exchange_session-IsSettled config.options.persistent_session
      (open_socket net (format_host_port config.addr config.port) request.timeout) net.close _
      (converse-ends net.stream guess "Modbus TCP" "socket" ok request) session w
tcp_exchange-IsTcpAnswer net guess (rtu_over_tcp config) request session w =
    exchange_session-IsSettled config.options.persistent_session
      (open_socket net (format_host_port config.addr config.port) request.timeout) net.close _
      (converse-ends net.stream guess "Modbus RTU-over-TCP" "socket" ok request) session w
tcp_exchange-IsTcpAnswer net guess endpoint request session w = refl

-- The same of an exchange over a serial line, the ASCII decoding's errors included.
pub serial_exchange-IsSerialAnswer :
    {P W E : Type 0} (line : SerialLine P W) (guess : List ℕ → ModbusProto → Result ℕ E)
    (decode_ascii_wire_frame : List ℕ → Result (List ℕ) String) (endpoint : ModbusEndpoint P)
    (request : ModbusRequest) (session : Option line.Port) (w : W)
    → IsSerialAnswer endpoint session w
        (serial_exchange line guess decode_ascii_wire_frame endpoint request session w)
unfolding serial_exchange
serial_exchange-IsSerialAnswer line guess decode (rtu config) request session w =
    exchange_session-IsSettled config.options.persistent_session
      (open_port line config.serial "Modbus RTU") line.close _
      (converse-ends line.stream guess "Modbus RTU" "serial" ok request) session w
serial_exchange-IsSerialAnswer line guess decode (ascii config) request session w =
    exchange_session-IsSettled config.options.persistent_session
      (open_port line config.serial "Modbus ASCII") line.close _
      (converse-ends line.stream guess "Modbus ASCII" "serial" decode request) session w
serial_exchange-IsSerialAnswer line guess decode endpoint request session w = refl
