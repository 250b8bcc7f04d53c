-- ===== src/Doip/Connection/Activation.antt =====
-- flxc1000-doip/src/connection.rs: what has gone out before a request reaches the UDS side, in
-- every run of a connection.
pub mod Handlers
pub mod Runs
use flxc1000_rpi.Prelude.{
  ℕ, zero, suc, ◌+◌, ◌≡◌, refl, sym, ◌⊎◌, inl, inr, Bool, true, false, Bool-cases, not, ◌==◌, ◌&&◌,
  Option, none, some, List, [], ◌∷◌, arith, leb, ltb, length, drop, Option-cases, All,
}
use flxc1000_rpi.Doip.Header
use flxc1000_rpi.Doip.Header.{
  PayloadType, routing_activation_request, diagnostic_message, alive_check_request,
}
use flxc1000_rpi.Doip.Message.Routing
use flxc1000_rpi.Doip.Message.Diagnostic
use flxc1000_rpi.Doip.Message.Diagnostic.{DiagnosticMessage}
use flxc1000_rpi.Doip.Connection.Action.{
  UdsRequest, ConnectionState, awaiting_activation, active, Effect, wrote, forwarded, Env, Conn,
  write_all, Result, ok, err, out_of_fuel, Action, bind_case, ◌>>◌,
}
use flxc1000_rpi.Doip.Connection.Process.{
  activation_response, positive_ack, uds_response, handle_routing_activation, write_response,
  forward_request, answer_diagnostic_message, unknown_target_nack, handle_diagnostic_message,
  dispatch, process_from, process_tcp_data,
}
use flxc1000_rpi.Bytes.{IsU8}
use flxc1000_rpi.Doip.Connection.Framing.{Frame, handle_frames}
use flxc1000_rpi.Doip.Connection.Total.{process_tcp_data-covers}
use flxc1000_rpi.Doip.Connection.Loop.{
  Event, Occurs, Link, running, ended, connect, timed_out, read_ok, read_failed, on_event,
  after_processing, Step, step, Reach, here, next,
}

module _ (ecu_address : ℕ) where
  -- Among the effects is the success response to the activation of `tester`.
  abbrev pub Activated : ℕ → List Effect → Type 0
  Activated tester [] = ⊥
  Activated tester (e ∷ log) =
      (e ≡ wrote (activation_response ecu_address tester)) ⊎ Activated tester log

  -- Every request that was forwarded is for this ECU or for all, was acknowledged to its sender
  -- immediately before, and comes after a successful routing activation.
  abbrev pub IsGuarded : List Effect → Type 0
  IsGuarded [] = Unit {0}
  IsGuarded (wrote bytes ∷ log) = IsGuarded log
  IsGuarded (forwarded r ∷ log) =
      ((r.target_address ≡ ecu_address) ⊎ (r.target_address ≡ 0xFFFF))
      × ((before : List Effect) × (log
            ≡ wrote (positive_ack ecu_address r.source_address) ∷ before))
      × ((tester : ℕ) × Activated tester log)
      × IsGuarded log

  -- The tester for whom the connection is active was activated.
  abbrev pub ActiveFits : ConnectionState → List Effect → Type 0
  ActiveFits awaiting_activation log = Unit {0}
  ActiveFits (active tester) log = Activated tester log

  pub record IsSafe (c : Conn) : Type 0 where
    pub guarded : IsGuarded c.log
    pub activated : ActiveFits c.state c.log

  pub ActiveFits-cons :
      (state : ConnectionState) (e : Effect) (log : List Effect)
      → ActiveFits state log
      → ActiveFits state (e ∷ log)
  ActiveFits-cons awaiting_activation e log h = tt
  ActiveFits-cons (active tester) e log h = inr h

  pub IsSafe-wrote :
      (bytes : List ℕ) (c : Conn) → IsSafe c → IsSafe (record c { log = wrote bytes ∷ c.log })
  IsSafe-wrote bytes c s = record {
    guarded = s.guarded;
    activated = ActiveFits-cons c.state (wrote bytes) c.log s.activated;
  }
