-- ===== src/Doip/Server/Tests.antt =====
-- The server of flxc1000-doip/src/server.rs on concrete datagrams and interfaces.
use flxc1000_rpi.Prelude.{
  true, All, arith, ℕ, ◌≤◌, ◌≡◌, refl, ◌↔◌, none, some, List, [], ◌∷◌, take, replicate,
}
use flxc1000_rpi.Doip.Header
use flxc1000_rpi.Doip.Header.{DoipHeader}
use flxc1000_rpi.Doip.Message.Vehicle
use flxc1000_rpi.Doip.Server.{DoipConfig, announcement, buffer_size, on_datagram}
use flxc1000_rpi.Doip.Server
use flxc1000_rpi.Doip.Connection.Action.{Env, awaiting_activation}
use flxc1000_rpi.Doip.Connection.Activation.{IsSafe}
use flxc1000_rpi.Doip.Connection.Loop.{Link, connect, on_event, read_ok, step}
use flxc1000_rpi.Doip.Connection.Runs.{conn_of}
use flxc1000_rpi.Doip.Server.Runs.{Reach-AreSafe, Reach-AreWire}
use flxc1000_rpi.Doip.Connection.Wire.{FitsFrames, IsWire}
use flxc1000_rpi.Doip.Server.Tasks.{
  UdpTask, TcpTask, Tasks, run, run_udp_server, run_tcp_server, receives, accepts, turns, Reach,
  begin, after,
}
use flxc1000_rpi.Doip.Server.Mac.{Interface, all_zero, get_mac_address}
use flxc1000_rpi.Doip.Server.Laws.{on_datagram_iff}
use flxc1000_rpi.Doip.Server.Address.{IsFirstMac, get_mac_address_found}

abbrev config : DoipConfig
config = record {
  ecu_address = 0x0001;
  vin = replicate 17 b'F';
  eid = 2 ∷ 0 ∷ 0 ∷ 0 ∷ 0 ∷ 1 ∷ [];
  gid = replicate 6 0;
}

-- A vehicle identification request with nothing behind the header.
abbrev identification_bytes : List ℕ
identification_bytes = 0x02 ∷ 0xFD ∷ 0x00 ∷ 0x01 ∷ 0 ∷ 0 ∷ 0 ∷ 0 ∷ []

abbrev sent_announcement : List ℕ
sent_announcement = Vehicle.encode (announcement config)

on_datagram_iff_example : (on_datagram config identification_bytes ≡ some sent_announcement) ↔ (
    (h : DoipHeader) × (Header.parse (take buffer_size identification_bytes) ≡ some h)
    × (1 ≤ h.payload_type)
    × (h.payload_type ≤ 3)
    × (sent_announcement ≡ Vehicle.encode (announcement config)))
on_datagram_iff_example = on_datagram_iff config identification_bytes sent_announcement

-- It is answered.
identification-answered : on_datagram config identification_bytes ≡ some sent_announcement
unfolding on_datagram Header.parse Header.from_u16
identification-answered = refl

-- The loopback, an interface without a readable address, and `02:0a:FF:00:00:01` with a line end.
abbrev interfaces : List Interface
interfaces =
    record { name = b'l' ∷ b'o' ∷ []; address = some (replicate 17 b'0') }
    ∷ record { name = b'w' ∷ b'0' ∷ []; address = none }
    ∷ record {
      name = b'e' ∷ b'0' ∷ [];
      address = some (
          b'0' ∷ b'2' ∷ b':' ∷ b'0' ∷ b'a' ∷ b':' ∷ b'F' ∷ b'F' ∷ b':' ∷ b'0' ∷ b'0' ∷ b':' ∷ b'0'
          ∷ b'0' ∷ b':' ∷ b'0' ∷ b'1' ∷ 10 ∷ []);
    }
    ∷ []

get_mac_address_found_example : IsFirstMac (get_mac_address interfaces) interfaces
get_mac_address_found_example = get_mac_address_found interfaces

address-read : get_mac_address interfaces ≡ 2 ∷ 10 ∷ 255 ∷ 0 ∷ 0 ∷ 1 ∷ []
unfolding get_mac_address flxc1000_rpi.Doip.Server.Mac.parse_mac
address-read = refl

-- The surroundings of a connection in which all succeeds.
abbrev calm : Env
calm = record {
  write_ok = λ log bytes. true;
  send_ok = λ log request. true;
  reply = λ log request. some (0x7E ∷ 0x00 ∷ []);
}

abbrev two_sessions : TcpTask
two_sessions = run_tcp_server (some (calm, 5)) (run_tcp_server (some (calm, 3)) (run true true).tcp)

abbrev answered_once : UdpTask
answered_once = run_udp_server config (some (7, identification_bytes)) (run true true).udp

-- A routing activation request of the tester 0x0E00.
abbrev activation_bytes : List ℕ
activation_bytes =
    0x02 ∷ 0xFD ∷ 0x00 ∷ 0x05 ∷ 0 ∷ 0 ∷ 0 ∷ 7 ∷ 0x0E ∷ 0x00 ∷ 0x00 ∷ 0 ∷ 0 ∷ 0 ∷ 0 ∷ []

abbrev activated : Link
activated =
    on_event calm 0x0001 (read_ok activation_bytes) 8
      (record { state = awaiting_activation; log = [] }) 5

-- Two connections are accepted, a datagram is answered, and the second connection is activated.
abbrev busy : Tasks
busy = record {
  udp = answered_once;
  tcp = record two_sessions {
    sessions =
        record { env = calm; link = connect 3 } ∷ record { env = calm; link = activated } ∷ [];
  };
}

busy-Reach : Reach config busy
unfolding run run_tcp_server connect
busy-Reach =
    after
      (after
        (after (after (begin true true) (accepts (some (calm, 3)) refl))
          (accepts (some (calm, 5)) refl))
        (receives (some (7, identification_bytes)) refl))
      (turns (record { env = calm; link = connect 3 } ∷ []) []
        (record { env = calm; link = connect 5 }) refl
        (step (read_ok activation_bytes) 8 (record { state = awaiting_activation; log = [] }) 5
          (omega arith, omega arith, omega arith)))

Reach-AreSafe_example :
    All (λ x. IsSafe config.ecu_address (conn_of x.link)) busy.tcp.sessions
    × All (λ sent. sent.1 ≡ Vehicle.encode (announcement config)) busy.udp.sent
Reach-AreSafe_example = Reach-AreSafe config busy-Reach

calm-FitsFrames : FitsFrames calm
calm-FitsFrames log r bytes e =
    let same : 0x7E ∷ 0x00 ∷ [] ≡ bytes = ground arith in rw (← same) (omega arith)

Reach-AreWire_example : All (λ x. IsWire (conn_of x.link).log) busy.tcp.sessions
Reach-AreWire_example = Reach-AreWire config busy-Reach (calm-FitsFrames, (calm-FitsFrames, tt))
