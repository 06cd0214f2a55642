-- ===== src/Witness/Transport.antt =====
-- The theorems on reading, attempts and sessions at a peer that sends given pieces.
use ferredge.Prelude.{
  ◌≡◌, refl, ℕ, zero, suc, ◌≤◌, Bool, true, false, String, none, some, List, [], ◌∷◌, ◌++◌, Result,
  ok, err, length, arith,
}
use ferredge.Core.Net.{Stream, write_all}
use ferredge.Modbus.Types.{ModbusProto, ModbusEndpoint, ModbusRequest, tcp_udp, rtu, ascii, options}
use ferredge.Modbus.Reconnect.{request_attempt_budget, delay_for_attempt}
use ferredge.Modbus.Frame.{read_stream_response, tcp_udp_frame_len, ascii_frame_end, max_frame_len}
use ferredge.Modbus.Frame.Reading.{IsAnswer, read_stream_response-IsAnswer}
use ferredge.Modbus.Frame.Recognise.{read_stream_response-tcp, read_stream_response-ascii}
use ferredge.Modbus.Driver.{
  ModbusTransport, execute_on_endpoint, attempts_loop, is_retryable_transport_error,
}
use ferredge.Modbus.Driver.Attempts.{Run, execute_on_endpoint-Run, execute_on_endpoint-single}
use ferredge.Modbus.Transport.{TcpNet, tcp_exchange, SerialLine, serial_exchange}
use ferredge.Modbus.Transport.Session.{
  IsTcpAnswer, IsSerialAnswer, tcp_exchange-IsTcpAnswer, serial_exchange-IsSerialAnswer,
}
use ferredge.Modbus.StackTransport.{DatagramNet, StackSession, stack_exchange}
use ferredge.Modbus.StackTransport.Family.{IsStackAnswer, stack_exchange-IsStackAnswer}
use ferredge.Witness.Data.{pump, speed_request}

-- A peer is the pieces it still has to send, and closes after the last.
abbrev Peer : Type 0
Peer = List (List ℕ)

abbrev receive : Peer → Result (List ℕ) (Unit {0}) × Peer
receive [] = (err tt, [])
receive (piece ∷ pieces) = (ok piece, pieces)

abbrev always_closed : Unit {0} → Bool
always_closed e = true

abbrev closed_text : Unit {0} → String
closed_text e = "Closed"

abbrev no_guess : List ℕ → ModbusProto → Result ℕ (Unit {0})
no_guess frame framing = err tt

abbrev reply : List ℕ
reply = 0 ∷ 1 ∷ 0 ∷ 0 ∷ 0 ∷ 3 ∷ 17 ∷ 3 ∷ 0 ∷ []

abbrev late_byte : List ℕ
late_byte = 7 ∷ []

-- Cut inside the header and sent with a byte of the next frame.
abbrev pieces : Peer
pieces = (0 ∷ 1 ∷ 0 ∷ []) ∷ (0 ∷ 0 ∷ 3 ∷ 17 ∷ []) ∷ (3 ∷ 0 ∷ 7 ∷ []) ∷ []

reply_len : tcp_udp_frame_len reply ≡ some (length reply)
unfolding tcp_udp_frame_len
reply_len = refl

reply_small : length (reply ++ late_byte) ≤ max_frame_len tcp_udp
unfolding max_frame_len
reply_small = omega arith

read_stream_response-tcp_example :
    (s' : Peer) × (read_stream_response no_guess "socket" receive always_closed closed_text tcp_udp
        pieces
      ≡ some (ok reply, s'))
read_stream_response-tcp_example =
    read_stream_response-tcp no_guess "socket" receive always_closed closed_text reply late_byte
      pieces pieces reply_len reply_small (refl, refl, (refl, refl, (refl, refl, tt))) refl

abbrev line : List ℕ
line = 58 ∷ 49 ∷ 49 ∷ 48 ∷ 51 ∷ 13 ∷ 10 ∷ []

-- Cut inside the line end.
abbrev line_pieces : Peer
line_pieces = (58 ∷ 49 ∷ 49 ∷ 48 ∷ 51 ∷ 13 ∷ []) ∷ (10 ∷ 7 ∷ []) ∷ []

line_end : ascii_frame_end line ≡ some (length line)
unfolding ascii_frame_end
line_end = refl

line_small : length (line ++ late_byte) ≤ max_frame_len ascii
unfolding max_frame_len
line_small = omega arith

read_stream_response-ascii_example :
    (s' : Peer) × (read_stream_response no_guess "serial" receive always_closed closed_text ascii
        line_pieces
      ≡ some (ok line, s'))
read_stream_response-ascii_example =
    read_stream_response-ascii no_guess "serial" receive always_closed closed_text line late_byte
      line_pieces line_pieces line_end refl (omega arith) line_small (refl, refl, (refl, refl, tt))
      refl

read_stream_response-IsAnswer_example :
    IsAnswer rtu
      (read_stream_response no_guess "serial" receive always_closed closed_text rtu line_pieces)
read_stream_response-IsAnswer_example =
    read_stream_response-IsAnswer no_guess "serial" receive always_closed closed_text rtu
      line_pieces

-- A transport that cannot connect at first: the world is the number of attempts so far.
abbrev flaky_outcome : ℕ → Result (List ℕ) String
flaky_outcome zero = err "failed to connect Modbus TCP socket: Closed"
flaky_outcome (suc n) = ok reply

abbrev flaky : ModbusTransport String ℕ
flaky = record {
  Session = Unit {0};
  exchange = λ endpoint request session w. (flaky_outcome w, none, suc w);
  close = λ session w. w;
}

abbrev unlocked : ℕ → Bool
unlocked w = true

abbrev no_wait : ℕ → ℕ → ℕ
no_wait delay w = w

abbrev read_request : ModbusRequest
read_request = record speed_request { is_write = false }

execute_on_endpoint-Run_example :
    (count : ℕ) × (count
      ≤ request_attempt_budget (options pump.endpoint).reconnect read_request.is_write)
    × Run flaky unlocked no_wait pump read_request
        (request_attempt_budget (options pump.endpoint).reconnect read_request.is_write)
        count
        0
        none
        0
        (execute_on_endpoint flaky unlocked no_wait pump read_request none 0)
execute_on_endpoint-Run_example =
    execute_on_endpoint-Run flaky unlocked no_wait pump read_request none 0 refl

-- The read is tried again; the write is not.
second_attempt :
    execute_on_endpoint flaky unlocked no_wait pump read_request none 0 ≡ (ok reply, none, 2)
unfolding execute_on_endpoint attempts_loop request_attempt_budget options delay_for_attempt
    is_retryable_transport_error
second_attempt = refl

execute_on_endpoint-single_example :
    execute_on_endpoint flaky unlocked no_wait pump speed_request none 0
    ≡ flaky.exchange pump.endpoint speed_request none 0
unfolding options
execute_on_endpoint-single_example =
    execute_on_endpoint-single flaky unlocked no_wait pump speed_request none 0 refl

-- Sockets and ports that hand over the peer's pieces; the connection itself has no state.
abbrev receive_from : (Unit {0} × Peer) → Result (List ℕ) (Unit {0}) × (Unit {0} × Peer)
receive_from (c, peer) = ((receive peer).0, (c, (receive peer).1))

abbrev peer_stream : Stream (Unit {0} × Peer)
peer_stream = record {
  Error = Unit {0};
  closed = tt;
  is_closed = always_closed;
  debug = closed_text;
  read = receive_from;
  write = λ s bytes. (ok (length bytes), s);
  flush = λ s. (ok tt, s);
}

abbrev peer_net : TcpNet Peer
peer_net = record {
  Socket = Unit {0};
  Error = Unit {0};
  debug = closed_text;
  stream = peer_stream;
  connect = λ address w. (ok tt, w);
  set_read_timeout = λ socket timeout. ok socket;
  set_write_timeout = λ socket timeout. ok socket;
  close = λ socket w. [];
}

tcp_exchange-IsTcpAnswer_example :
    IsTcpAnswer pump.endpoint none pieces
      (tcp_exchange peer_net no_guess pump.endpoint speed_request none pieces)
tcp_exchange-IsTcpAnswer_example =
    tcp_exchange-IsTcpAnswer peer_net no_guess pump.endpoint speed_request none pieces

-- The endpoint is persistent, so the socket is kept.
exchanged :
    tcp_exchange peer_net no_guess pump.endpoint speed_request none pieces
    ≡ some (ok reply, some tt, [])
unfolding tcp_exchange write_all read_stream_response
exchanged = refl

abbrev peer_line : SerialLine String Peer
peer_line = record {
  Port = Unit {0};
  Error = Unit {0};
  debug = closed_text;
  stream = peer_stream;
  open_line = λ config w. (ok tt, w);
  close = λ port w. [];
}

abbrev serial_endpoint : ModbusEndpoint String
serial_endpoint =
    ModbusEndpoint.ascii (record { serial = "/dev/ttyS0"; options = options pump.endpoint })

abbrev bad_frame : List ℕ → Result (List ℕ) String
bad_frame raw = err "rmodbus error: FrameBroken"

serial_exchange-IsSerialAnswer_example :
    IsSerialAnswer serial_endpoint none line_pieces
      (serial_exchange peer_line no_guess bad_frame serial_endpoint speed_request none line_pieces)
serial_exchange-IsSerialAnswer_example =
    serial_exchange-IsSerialAnswer peer_line no_guess bad_frame serial_endpoint speed_request none
      line_pieces

abbrev deaf : DatagramNet Peer
deaf = record {
  Socket = Unit {0};
  Error = Unit {0};
  debug = closed_text;
  bind_datagram = λ address w. (ok tt, w);
  set_read_timeout = λ socket timeout. ok socket;
  send_to = λ socket bytes address w. (ok socket, w);
  recv_from = λ socket size w. receive w;
}

-- A serial port is left over; the endpoint is a socket's.
stack_exchange-IsStackAnswer_example : IsStackAnswer pump.endpoint (some (StackSession.serial tt)) (
    stack_exchange peer_net deaf peer_line no_guess bad_frame pump.endpoint speed_request
      (some (StackSession.serial tt))
      pieces)
stack_exchange-IsStackAnswer_example =
    stack_exchange-IsStackAnswer peer_net deaf peer_line no_guess bad_frame pump.endpoint
      speed_request (some (StackSession.serial tt)) pieces
