-- ===== src/Doip/Server/Runs.antt =====
-- flxc1000-doip/src/server.rs: what holds of all connections and datagrams in every run.
use flxc1000_rpi.Prelude.{
  ℕ, ◌≡◌, Option, Option-cases, inl, inr, none, some, List, [], ◌∷◌, All, All-append, All-split,
}
use flxc1000_rpi.Doip.Connection.Action.{Env}
use flxc1000_rpi.Doip.Connection.Activation.{IsSafe}
use flxc1000_rpi.Doip.Connection.Activation.Runs as Activation
use flxc1000_rpi.Doip.Connection.Loop as ConnectionLoop
use flxc1000_rpi.Doip.Connection.Loop.{Link, connect, here, next}
use flxc1000_rpi.Doip.Connection.Runs.{conn_of}
use flxc1000_rpi.Doip.Connection.Wire as Wire
use flxc1000_rpi.Doip.Connection.Wire.{FitsFrames, IsWire}
use flxc1000_rpi.Doip.Message.Vehicle
use flxc1000_rpi.Doip.Server.{DoipConfig, announcement, on_datagram}
use flxc1000_rpi.Doip.Server.Laws.{on_datagram_iff}
use flxc1000_rpi.Doip.Server.Tasks.{
  Session, UdpTask, TcpTask, Tasks, run, run_udp_server, run_tcp_server, Step, receives, accepts,
  turns, Reach, begin, after,
}

module _ (c : DoipConfig) where
  -- A connection stands where a run of its own has come to.
  abbrev IsRun : Session → Type 0
  IsRun x = (start : ℕ) × ConnectionLoop.Reach x.env c.ecu_address (connect start) x.link

  abbrev IsAnnouncement : ℕ × List ℕ → Type 0
  IsAnnouncement sent = sent.1 ≡ Vehicle.encode (announcement c)

  abbrev Holds : Tasks → Type 0
  Holds y = All IsRun y.tcp.sessions × All IsAnnouncement y.udp.sent

  run_udp_server-Holds :
      (received : Option (ℕ × List ℕ)) (u : UdpTask)
      → All IsAnnouncement u.sent
      → All IsAnnouncement (run_udp_server c received u).sent
  unfolding run_udp_server
  run_udp_server-Holds none u sent = sent
  run_udp_server-Holds (some (peer, datagram)) u sent =
      elim (Option-cases (on_datagram c datagram)) [
        | inl silent ↦ rw (silent, All) sent
        | inr (answer, answered) ↦
            let (h, parsed, low, high, same) = (on_datagram_iff c datagram answer).0 answered in
            rw (answered, All) (same, sent)
      ]

  run_tcp_server-Holds :
      (accepted : Option (Env × ℕ)) (t : TcpTask)
      → All IsRun t.sessions
      → All IsRun (run_tcp_server accepted t).sessions
  unfolding run_tcp_server
  run_tcp_server-Holds none t runs = runs
  run_tcp_server-Holds (some (env, now)) t runs =
      All-append IsRun t.sessions _ runs ((now, here), tt)

  Step-Holds : {y z : Tasks} → Step c y z → Holds y → Holds z
  Step-Holds {y = y} (receives received serving) (runs, sent) =
      (runs, run_udp_server-Holds received y.udp sent)
  Step-Holds {y = y} (accepts accepted listening) (runs, sent) =
      (run_tcp_server-Holds accepted y.tcp runs, sent)
  Step-Holds (turns before later x at_x turn) (runs, sent) =
      let (of_before, ((start, reached), of_later)) =
        All-split IsRun before (x ∷ later) (rw at_x at runs) in
      (All-append IsRun before _ of_before ((start, next reached turn), of_later), sent)

  Reach-Holds : {y : Tasks} → Reach c y → Holds y
  unfolding run
  Reach-Holds (begin udp_ok tcp_ok) = (tt, tt)
  Reach-Holds (after reached step) = Step-Holds step (Reach-Holds reached)

  -- What holds of every run of a connection with its surroundings holds of all that the server has.
  AreRuns-All :
      (Q P : Session → Type 0)
      → ((x : Session) → IsRun x → Q x → P x)
      → (xs : List Session) → All IsRun xs
      → All Q xs
      → All P xs
  AreRuns-All Q P holds [] runs are_q = tt
  AreRuns-All Q P holds (x ∷ xs) (run_x, runs) (q, are_q) =
      (holds x run_x q, AreRuns-All Q P holds xs runs are_q)

  All-Unit : (xs : List Session) → All (λ x. Unit {0}) xs
  All-Unit [] = tt
  All-Unit (x ∷ xs) = (tt, All-Unit xs)

  -- In every run of the server, however its tasks interleave, the peers behave and the sockets fail:
  -- on every connection that was ever accepted, each request that reached the UDS side is addressed
  -- to this ECU or to all, was acknowledged to its sender immediately before, and comes after a
  -- routing activation response of success, and the connection is active only for a tester to whom
  -- such a response was written; and every datagram that is sent is the announcement of the
  -- configured entity.
  pub Reach-AreSafe :
      {y : Tasks}
      → Reach c y
      → All (λ x. IsSafe c.ecu_address (conn_of x.link)) y.tcp.sessions
        × All (λ sent. sent.1 ≡ Vehicle.encode (announcement c)) y.udp.sent
  Reach-AreSafe {y = y} reached =
      let (runs, sent) = Reach-Holds reached in
      let safe = λ (x : Session) (r : IsRun x) (u : Unit {0}).
        Activation.Reach-IsSafe x.env c.ecu_address r.0 r.1 in
      (
        AreRuns-All (λ x. Unit {0}) (λ x. IsSafe c.ecu_address (conn_of x.link)) safe y.tcp.sessions
            runs (All-Unit y.tcp.sessions),
        sent,
      )

  -- In every run of the server, on every connection that was ever accepted, each single write is one
  -- whole frame: a header of this protocol version with a known type and the number of the bytes
  -- behind it, whatever the peers send and however writes and the UDS side fail. The answers of the
  -- UDS side are shorter than the 32-bit length field allows.
  pub Reach-AreWire :
      {y : Tasks}
      → Reach c y
      → All (λ x. FitsFrames x.env) y.tcp.sessions
      → All (λ x. IsWire (conn_of x.link).log) y.tcp.sessions
  Reach-AreWire {y = y} reached =
      AreRuns-All (λ x. FitsFrames x.env) (λ x. IsWire (conn_of x.link).log)
        (λ x (start, r) fits. Wire.Reach-IsWire x.env c.ecu_address start fits r) y.tcp.sessions
        (Reach-Holds reached).0
