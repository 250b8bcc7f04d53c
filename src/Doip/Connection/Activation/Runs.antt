-- ===== src/Doip/Connection/Activation/Runs.antt =====
-- flxc1000-doip/src/connection.rs: every run of a connection is safe.
use flxc1000_rpi.Prelude.{ℕ}
use flxc1000_rpi.Doip.Connection.Action.{Env}
use flxc1000_rpi.Doip.Connection.Activation.{IsSafe}
use flxc1000_rpi.Doip.Connection.Activation.Handlers.{dispatch-IsSafe}
use flxc1000_rpi.Doip.Connection.Loop.{Link, connect, Reach}
use flxc1000_rpi.Doip.Connection.Runs.{conn_of, Reach_keeps}

-- In every run of a connection, whatever the peer sends and however writes and the UDS side fail,
-- each request that reaches the UDS side is addressed to this ECU or to all, was acknowledged to
-- its sender immediately before, and comes after a routing activation response of success; and a
-- connection is active only for a tester to whom such a response was written.
pub Reach-IsSafe :
    (env : Env) (ecu_address start : ℕ) {l : Link}
    → Reach env ecu_address (connect start) l
    → IsSafe ecu_address (conn_of l)
Reach-IsSafe env ecu_address start r =
    Reach_keeps env ecu_address (IsSafe ecu_address) (dispatch-IsSafe env ecu_address) start
      (record { guarded = tt; activated = tt }) r
