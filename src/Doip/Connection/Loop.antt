-- ===== src/Doip/Connection/Loop.antt =====
-- flxc1000-doip/src/connection.rs: `handle_connection`, as one step for each turn of its loop.
-- `tokio::select!` chooses between the timer and the read, and the read its result, so the choice
-- is a relation. Times are in nanoseconds.
use flxc1000_rpi.Prelude.{ℕ, ◌+◌, ◌*◌, ◌≤◌, List, [], ◌∷◌, length, All}
use flxc1000_rpi.Bytes.{IsU8}
use flxc1000_rpi.Doip.Connection.Action.{
  awaiting_activation, Env, Conn, ConnError, Result, ok, err, out_of_fuel,
}
use flxc1000_rpi.Doip.Connection.Process.{process_tcp_data}

-- `Duration::from_secs(300)`
abbrev pub inactivity_timeout : ℕ
inactivity_timeout = 300 * 1_000_000_000

abbrev pub max_payload_size : ℕ
max_payload_size = 64 * 1024

-- Why the loop was left. `unfinished` is no outcome of the code: the frame loop had no fuel left.
pub data Reason : Type 0 where
  inactivity closed_by_peer read_error unfinished : Reason
  processing_error : ConnError → Reason

-- The variables of the loop: the connection and `last_activity`, until `break`.
pub data Link : Type 0 where
  running : Conn → ℕ → Link
  ended : Reason → Conn → Link

unfoldable pub connect : ℕ → Link
connect now = running (record { state = awaiting_activation; log = [] }) now

-- What `select!` delivers: the timer, or the result of `stream.read`, where `Ok(0)` is `[]`.
pub data Event : Type 0 where
  timed_out : Event
  read_ok : List ℕ → Event
  read_failed : Event

abbrev pub after_processing : ℕ → Result (Unit {0}) × Conn → Link
after_processing now (ok a, c) = running c now
after_processing now (err e, c) = ended (processing_error e) c
after_processing now (out_of_fuel, c) = ended unfinished c

unfoldable pub on_event : Env → ℕ → Event → ℕ → Conn → ℕ → Link
on_event env ecu_address timed_out now c last_activity = ended inactivity c
on_event env ecu_address (read_ok []) now c last_activity = ended closed_by_peer c
on_event env ecu_address (read_ok (b ∷ bs)) now c last_activity =
    after_processing now (process_tcp_data env ecu_address (b ∷ bs) c)
on_event env ecu_address read_failed now c last_activity = ended read_error c

-- When an event can come: the timer fires no earlier than the timeout after the last activity, and
-- a read fills at most the buffer of `8 + MAX_PAYLOAD_SIZE` bytes.
abbrev pub Occurs : Event → ℕ → ℕ → Type 0
Occurs timed_out now last_activity = last_activity + inactivity_timeout ≤ now
Occurs (read_ok bytes) now last_activity =
    (last_activity ≤ now) × (length bytes ≤ 8 + max_payload_size) × All IsU8 bytes
Occurs read_failed now last_activity = last_activity ≤ now

pub data Step (env : Env) (ecu_address : ℕ) : Link → Link → Type 0 where
  step :
      (event : Event) (now : ℕ) (c : Conn) (last_activity : ℕ)
      → Occurs event now last_activity
      → Step env ecu_address
          (running c last_activity)
          (on_event env ecu_address event now c last_activity)

pub data Reach (env : Env) (ecu_address : ℕ) (start : Link) : Link → Type 0 where
  here : Reach env ecu_address start start
  next :
      {l m : Link}
      → Reach env ecu_address start l
      → Step env ecu_address l m
      → Reach env ecu_address start m
