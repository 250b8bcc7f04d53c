-- ===== src/Doip/Server/Tasks.antt =====
-- flxc1000-doip/src/server.rs: `run` and the two tasks that it spawns, for UDP and for TCP, with the
-- tasks of the connections. What the sockets deliver is a parameter of each step.
use flxc1000_rpi.Prelude.{ℕ, ◌≡◌, Bool, true, false, Option, none, some, List, [], ◌∷◌, ◌++◌}
use flxc1000_rpi.Doip.Connection.Action.{Env}
use flxc1000_rpi.Doip.Connection.Loop as ConnectionLoop
use flxc1000_rpi.Doip.Connection.Loop.{Link, connect}
use flxc1000_rpi.Doip.Server.{DoipConfig, on_datagram}

-- The task of one connection, with what its stream and its channels do.
pub record Session : Type 0 where
  pub env : Env
  pub link : Link

-- `sent` are the calls of `send_to` with their peer, newest first, whether they fail or not.
pub record UdpTask : Type 0 where
  pub serving : Bool
  pub sent : List (ℕ × List ℕ)

pub record TcpTask : Type 0 where
  pub listening : Bool
  pub sessions : List Session

pub record Tasks : Type 0 where
  pub udp : UdpTask
  pub tcp : TcpTask

-- A task whose socket cannot be bound or set up ends at once, and the other goes on.
unfoldable pub run : Bool → Bool → Tasks
run udp_ok tcp_ok = record {
  udp = record { serving = udp_ok; sent = [] };
  tcp = record { listening = tcp_ok; sessions = [] };
}

-- A turn of the loop of `run_udp_server`: a datagram and its sender, or an error.
unfoldable pub run_udp_server : DoipConfig → Option (ℕ × List ℕ) → UdpTask → UdpTask
run_udp_server c none u = record u { serving = false }
run_udp_server c (some (peer, datagram)) u = elim (on_datagram c datagram) [
  | none ↦ u
  | some answer ↦ record u { sent = (peer, answer) ∷ u.sent }
]

-- A turn of the loop of `run_tcp_server`: a connection and the time at which its task starts, or an
-- error.
unfoldable pub run_tcp_server : Option (Env × ℕ) → TcpTask → TcpTask
run_tcp_server none t = record t { listening = false }
run_tcp_server (some (env, now)) t = record t {
  sessions = t.sessions ++ record { env = env; link = connect now } ∷ [];
}

-- The tasks run in any order; the tasks of the connections go on when that of the listener ends.
pub data Step (c : DoipConfig) : Tasks → Tasks → Type 0 where
  receives :
      {y : Tasks} (received : Option (ℕ × List ℕ))
      → y.udp.serving ≡ true
      → Step c y (record y { udp = run_udp_server c received y.udp })
  accepts :
      {y : Tasks} (accepted : Option (Env × ℕ))
      → y.tcp.listening ≡ true
      → Step c y (record y { tcp = run_tcp_server accepted y.tcp })
  turns :
      {y : Tasks} (before later : List Session) (x : Session) {m : Link}
      → y.tcp.sessions ≡ before ++ x ∷ later
      → ConnectionLoop.Step x.env c.ecu_address x.link m
      → Step c y
          (record y { tcp = record y.tcp { sessions = before ++ record x { link = m } ∷ later } })

pub data Reach (c : DoipConfig) : Tasks → Type 0 where
  begin : (udp_ok tcp_ok : Bool) → Reach c (run udp_ok tcp_ok)
  after : {y z : Tasks} → Reach c y → Step c y z → Reach c z
