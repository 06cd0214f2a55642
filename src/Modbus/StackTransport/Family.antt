-- ===== src/Modbus/StackTransport/Family.antt =====
-- Which session the combined transport keeps.
use ferredge.Prelude.{
  ◌≡◌, refl, Bool, ◌&&◌, String, Option, none, some, List, ℕ, Result, is_ok, is_some,
}
use ferredge.Modbus.Types.{ModbusProto, ModbusEndpoint, ModbusRequest}
use ferredge.Modbus.Transport.{TcpNet, SerialLine}
use ferredge.Modbus.Transport.Session.{
  IsSettled, tcp_exchange-IsTcpAnswer, serial_exchange-IsSerialAnswer,
}
use ferredge.Modbus.StackTransport.{
  DatagramNet, StackSession, Session, tcp_part, serial_part, rewrapped, stack_exchange,
}

-- The families that have a session.
pub data Family : Type 0 where
  sockets ports : Family

abbrev pub family_of : {Sock Port : Type 0} → StackSession Sock Port → Family
family_of (StackSession.tcp _) = Family.sockets
family_of (StackSession.serial _) = Family.ports

-- An answer is there, with a session exactly if it may be kept and all went well; it is of the family.
abbrev pub IsKept :
    {Sock Port W : Type 0}
    → Family
    → Bool
    → Option (Result (List ℕ) String × Option (StackSession Sock Port) × W)
    → Type 0
IsKept family persistent none = ⊥
IsKept family persistent (some (r, session, w)) =
    (is_some session ≡ (persistent && is_ok r))
    × ((live : StackSession _ _) → session ≡ some live → family_of live ≡ family)

-- An answer is there, and the session is the one from before.
abbrev pub IsUntouched :
    {Sock Port W : Type 0}
    → Option (StackSession Sock Port)
    → Option (Result (List ℕ) String × Option (StackSession Sock Port) × W)
    → Type 0
IsUntouched before none = ⊥
IsUntouched before (some (r, session, w)) = session ≡ before

abbrev pub IsStackAnswer :
    {P Sock Port W : Type 0}
    → ModbusEndpoint P
    → Option (StackSession Sock Port)
    → Option (Result (List ℕ) String × Option (StackSession Sock Port) × W)
    → Type 0
IsStackAnswer (ModbusEndpoint.tcp config) before answer =
    IsKept Family.sockets config.options.persistent_session answer
IsStackAnswer (ModbusEndpoint.rtu_over_tcp config) before answer =
    IsKept Family.sockets config.options.persistent_session answer
IsStackAnswer (ModbusEndpoint.udp config) before answer = IsUntouched before answer
IsStackAnswer (ModbusEndpoint.rtu config) before answer =
    IsKept Family.ports config.options.persistent_session answer
IsStackAnswer (ModbusEndpoint.ascii config) before answer =
    IsKept Family.ports config.options.persistent_session answer

module _ {P W E : Type 0} (net : TcpNet W) (datagrams : DatagramNet W) (line : SerialLine P W)
    (guess : List ℕ → ModbusProto → Result ℕ E)
    (decode_ascii_wire_frame : List ℕ → Result (List ℕ) String) where
  rewrapped-IsKept :
      {C : Type 0} (family : Family) (persistent : Bool)
      (wrap : C → Session net datagrams line guess decode_ascii_wire_frame)
      → ((c : C) → family_of (wrap c) ≡ family)
      → (answer : Option (Result (List ℕ) String × Option C × W)) → IsSettled persistent answer
      → IsKept family persistent
          (rewrapped net datagrams line guess decode_ascii_wire_frame wrap answer)
  rewrapped-IsKept family persistent wrap same none settled = settled
  rewrapped-IsKept family persistent wrap same (some (r, none, w)) settled = (settled, λ live e. cc)
  rewrapped-IsKept family persistent wrap same (some (r, some c, w)) settled =
      (settled, λ live e. cc (same c))

  -- The combined transport always answers. Afterwards a session is kept exactly if the endpoint is
  -- persistent and the exchange went well, and it is of the endpoint's own family, whatever session
  -- was there before; an exchange over UDP leaves the session alone.
  pub stack_exchange-IsStackAnswer :
      (endpoint : ModbusEndpoint P) (request : ModbusRequest)
      (session : Option (Session net datagrams line guess decode_ascii_wire_frame)) (w : W)
      → IsStackAnswer endpoint session (
          stack_exchange net datagrams line guess decode_ascii_wire_frame endpoint request session
            w)
  unfolding stack_exchange
  stack_exchange-IsStackAnswer (ModbusEndpoint.tcp config) request session w =
      let (sub, w') = tcp_part net datagrams line guess decode_ascii_wire_frame session w in
      rewrapped-IsKept Family.sockets config.options.persistent_session StackSession.tcp (λ c. refl)
        _ (tcp_exchange-IsTcpAnswer {P = P} net guess (ModbusEndpoint.tcp config) request sub w')
  stack_exchange-IsStackAnswer (ModbusEndpoint.rtu_over_tcp config) request session w =
      let (sub, w') = tcp_part net datagrams line guess decode_ascii_wire_frame session w in
      rewrapped-IsKept Family.sockets config.options.persistent_session StackSession.tcp (λ c. refl)
        _
        (tcp_exchange-IsTcpAnswer {P = P} net guess (ModbusEndpoint.rtu_over_tcp config) request sub
          w')
  stack_exchange-IsStackAnswer (ModbusEndpoint.udp config) request session w = refl
  stack_exchange-IsStackAnswer (ModbusEndpoint.rtu config) request session w =
      let (sub, w') = serial_part net datagrams line guess decode_ascii_wire_frame session w in
      rewrapped-IsKept Family.ports config.options.persistent_session StackSession.serial
        (λ c. refl) _
        (serial_exchange-IsSerialAnswer line guess decode_ascii_wire_frame
          (ModbusEndpoint.rtu config) request sub w')
  stack_exchange-IsStackAnswer (ModbusEndpoint.ascii config) request session w =
      let (sub, w') = serial_part net datagrams line guess decode_ascii_wire_frame session w in
      rewrapped-IsKept Family.ports config.options.persistent_session StackSession.serial
        (λ c. refl) _
        (serial_exchange-IsSerialAnswer line guess decode_ascii_wire_frame
          (ModbusEndpoint.ascii config) request sub w')
