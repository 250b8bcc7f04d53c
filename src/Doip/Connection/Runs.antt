-- ===== src/Doip/Connection/Runs.antt =====
-- flxc1000-doip/src/connection.rs: what every handler keeps holds in every run of a connection.
use flxc1000_rpi.Prelude.{ℕ, Option, List, [], ◌∷◌, All}
use flxc1000_rpi.Bytes.{IsU8}
use flxc1000_rpi.Doip.Header
use flxc1000_rpi.Doip.Header.{PayloadType}
use flxc1000_rpi.Doip.Connection.Action.{
  awaiting_activation, Env, Conn, Result, ok, err, out_of_fuel, Action, bind_case, ◌>>◌,
}
use flxc1000_rpi.Doip.Connection.Process.{dispatch, process_tcp_data}
use flxc1000_rpi.Doip.Connection.Framing.{Frame, handle_frames}
use flxc1000_rpi.Doip.Connection.Total.{process_tcp_data-covers}
use flxc1000_rpi.Doip.Connection.Loop.{
  Event, Occurs, Link, running, ended, connect, timed_out, read_ok, read_failed, on_event,
  after_processing, Step, step, Reach, here, next,
}

-- What an action does where `P` holds leaves it true.
abbrev pub Keeps : (Conn → Type 0) → Action (Unit {0}) → Type 0
Keeps P m = (c : Conn) → P c → P (m c).1

abbrev pub conn_of : Link → Conn
conn_of (running c last_activity) = c
conn_of (ended reason c) = c

abbrev pub initial_conn : Conn
initial_conn = record { state = awaiting_activation; log = [] }

>>-Keeps : (P : Conn → Type 0) (m k : Action (Unit {0})) → Keeps P m → Keeps P k → Keeps P (m >> k)
>>-Keeps P m k keeps_m keeps_k c s = after (m c).0 (m c).1 (keeps_m c s)
  where
    after : (r : Result (Unit {0})) (c' : Conn) → P c' → P (bind_case r c' (λ _. k)).1
    after (ok a) c' s' = keeps_k c' s'
    after (err e) c' s' = s'
    after out_of_fuel c' s' = s'

module _ (env : Env) (ecu_address : ℕ) (P : Conn → Type 0)
    (kept : (t : Option PayloadType) (payload : List ℕ)
      → Keeps P (dispatch env ecu_address t payload)) where
  handle_frames-Keeps : (fs : List Frame) → Keeps P (handle_frames env ecu_address fs)
  unfolding handle_frames
  handle_frames-Keeps [] c s = s
  handle_frames-Keeps (f ∷ fs) c s =
      >>-Keeps P (dispatch env ecu_address (Header.from_u16 f.payload_type) f.payload)
        (handle_frames env ecu_address fs) (kept (Header.from_u16 f.payload_type) f.payload)
        (handle_frames-Keeps fs) c s

  process_tcp_data-Keeps :
      (bytes : List ℕ) → All IsU8 bytes → Keeps P (process_tcp_data env ecu_address bytes)
  process_tcp_data-Keeps bytes are_bytes c s =
      let (fs, rest, fit, incomplete, whole, same) =
        process_tcp_data-covers env ecu_address bytes are_bytes in
      rw same (handle_frames-Keeps fs c s)

  after_processing_keeps :
      (now : ℕ) (r : Result (Unit {0})) (c : Conn) → P c → P (conn_of (after_processing now (r, c)))
  after_processing_keeps now (ok a) c s = s
  after_processing_keeps now (err e) c s = s
  after_processing_keeps now out_of_fuel c s = s

  on_event_keeps :
      (event : Event) (now : ℕ) (c : Conn) (last_activity : ℕ)
      → Occurs event now last_activity
      → P c
      → P (conn_of (on_event env ecu_address event now c last_activity))
  unfolding on_event
  on_event_keeps timed_out now c last_activity o s = s
  on_event_keeps (read_ok []) now c last_activity o s = s
  on_event_keeps (read_ok (b ∷ bs)) now c last_activity (_, _, are_bytes) s =
      after_processing_keeps now _ _ (process_tcp_data-Keeps (b ∷ bs) are_bytes c s)
  on_event_keeps read_failed now c last_activity o s = s

  Step_keeps : {l m : Link} → Step env ecu_address l m → P (conn_of l) → P (conn_of m)
  Step_keeps (step event now c last_activity o) s = on_event_keeps event now c last_activity o s

  pub Reach_keeps :
      (start : ℕ) {l : Link}
      → P initial_conn
      → Reach env ecu_address (connect start) l
      → P (conn_of l)
  Reach_keeps start first here = unfold connect in first
  Reach_keeps start first (next r st) = Step_keeps st (Reach_keeps start first r)
