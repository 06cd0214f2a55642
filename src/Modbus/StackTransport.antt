-- ===== src/Modbus/StackTransport.antt =====
-- crates/ferredge-proto-modbus/src/transport.rs: `UdpTransport`, and `StackTransport`, which serves
-- every endpoint with one session for the stream sockets and the serial ports.
pub mod Family
use ferredge.Prelude.{
  ℕ, String, Option, none, some, List, Result, ok, err, ◌>>=◌, map_err, map_option, str_append,
}
use ferredge.Core.Net.{format_host_port}
use ferredge.Modbus.Types.{ModbusProto, ModbusEndpoint, ModbusSocketConfig, ModbusRequest}
use ferredge.Modbus.Transport.{TcpNet, tcp_exchange, SerialLine, serial_exchange}

-- `recv_from` is given the length of its buffer and gives what it put there.
pub record DatagramNet (W : Type 0) : Type 1 where
  pub Socket : Type 0
  pub Error : Type 0
  pub debug : Error → String
  pub bind_datagram : String → W → Result Socket Error × W
  pub set_read_timeout : Socket → Option ℕ → Result Socket Error
  pub send_to : Socket → List ℕ → String → W → Result Socket Error × W
  pub recv_from : Socket → ℕ → W → Result (List ℕ) Error × W

module _ {W : Type 0} (net : DatagramNet W) where
  abbrev failed : String → net.Error → String
  failed what e = str_append what (net.debug e)

  abbrev received : Result (List ℕ) net.Error × W → Result (List ℕ) String × W
  received (r, w) = (map_err (failed "failed to receive Modbus UDP response: ") r, w)

  abbrev sent : Result net.Socket net.Error × W → Result (List ℕ) String × W
  sent (err e, w) = (err (failed "failed to send Modbus UDP request: " e), w)
  sent (ok socket, w) = received (net.recv_from socket 260 w)

  abbrev configured :
      ModbusSocketConfig
      → ModbusRequest
      → W
      → Result net.Socket net.Error
      → Result (List ℕ) String × W
  configured config request w (err e) =
      (err (failed "failed to set Modbus UDP read timeout: " e), w)
  configured config request w (ok socket) =
      sent (net.send_to socket request.frame (format_host_port config.addr config.port) w)

  abbrev bound :
      ModbusSocketConfig
      → ModbusRequest
      → Result net.Socket net.Error × W
      → Result (List ℕ) String × W
  bound config request (err e, w) = (err (failed "failed to bind Modbus UDP socket: " e), w)
  bound config request (ok socket, w) =
      configured config request w (net.set_read_timeout socket request.timeout)

  -- `UdpTransport::execute`, which keeps no session.
  unfoldable pub udp_exchange :
      {P : Type 0} → ModbusEndpoint P → ModbusRequest → W → Result (List ℕ) String × W
  unfolding format_host_port
  udp_exchange (ModbusEndpoint.udp config) request w =
      bound config request (net.bind_datagram "0.0.0.0:0" w)
  udp_exchange _ request w = (err "device endpoint is not Modbus UDP", w)

pub data StackSession (Sock Port : Type 0) : Type 0 where
  tcp : Sock → StackSession Sock Port
  serial : Port → StackSession Sock Port

module _ {P W E : Type 0} (net : TcpNet W) (datagrams : DatagramNet W) (line : SerialLine P W)
    (guess : List ℕ → ModbusProto → Result ℕ E)
    (decode_ascii_wire_frame : List ℕ → Result (List ℕ) String) where
  abbrev pub Session : Type 0
  Session = StackSession net.Socket line.Port

  abbrev pub StackAnswer : Type 0
  StackAnswer = Option (Result (List ℕ) String × Option Session × W)

  -- `StackTransport::close`.
  unfoldable pub close_session : Session → W → W
  close_session (StackSession.tcp socket) w = net.close socket w
  close_session (StackSession.serial port) w = line.close port w

  -- The session of the family, or none once another family's is closed.
  abbrev pub tcp_part : Option Session → W → Option net.Socket × W
  tcp_part none w = (none, w)
  tcp_part (some (StackSession.tcp socket)) w = (some socket, w)
  tcp_part (some (StackSession.serial port)) w = (none, line.close port w)

  abbrev pub serial_part : Option Session → W → Option line.Port × W
  serial_part none w = (none, w)
  serial_part (some (StackSession.serial port)) w = (some port, w)
  serial_part (some (StackSession.tcp socket)) w = (none, net.close socket w)

  abbrev pub rewrapped :
      {C : Type 0} → (C → Session) → Option (Result (List ℕ) String × Option C × W) → StackAnswer
  rewrapped wrap none = none
  rewrapped wrap (some (r, sub, w)) = some (r, map_option wrap sub, w)

  abbrev pub over_tcp : ModbusEndpoint P → ModbusRequest → Option net.Socket × W → StackAnswer
  over_tcp endpoint request (sub, w) =
      rewrapped StackSession.tcp (tcp_exchange net guess endpoint request sub w)

  abbrev pub over_serial : ModbusEndpoint P → ModbusRequest → Option line.Port × W → StackAnswer
  over_serial endpoint request (sub, w) =
      rewrapped StackSession.serial
        (serial_exchange line guess decode_ascii_wire_frame endpoint request sub w)

  abbrev over_udp : Option Session → Result (List ℕ) String × W → StackAnswer
  over_udp session (r, w) = some (r, session, w)

  -- `StackTransport::execute`.
  unfoldable pub stack_exchange :
      ModbusEndpoint P → ModbusRequest → Option Session → W → StackAnswer
  unfolding tcp_exchange serial_exchange udp_exchange
  stack_exchange (ModbusEndpoint.tcp config) request session w =
      over_tcp (ModbusEndpoint.tcp config) request (tcp_part session w)
  stack_exchange (ModbusEndpoint.rtu_over_tcp config) request session w =
      over_tcp (ModbusEndpoint.rtu_over_tcp config) request (tcp_part session w)
  stack_exchange (ModbusEndpoint.udp config) request session w =
      over_udp session (udp_exchange datagrams {P = P} (ModbusEndpoint.udp config) request w)
  stack_exchange (ModbusEndpoint.rtu config) request session w =
      over_serial (ModbusEndpoint.rtu config) request (serial_part session w)
  stack_exchange (ModbusEndpoint.ascii config) request session w =
      over_serial (ModbusEndpoint.ascii config) request (serial_part session w)
