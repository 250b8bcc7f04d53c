-- ===== src/Service/Tests.antt =====
-- Two testers at the application: the one at 0x0E80 clears the DTCs between two reads of the other.
use flxc1000_rpi.Prelude.{
  ℕ, ◌≡◌, refl, Bool, true, inl, none, some, List, [], ◌∷◌, All, arith, stay, never,
}
use flxc1000_rpi.Ace.{UdsServer}
use flxc1000_rpi.App.{SharedState, initial_state, initial_dtcs}
use flxc1000_rpi.App.DtcServices.{handle_clear_dtc, handle_read_dtc, report_dtcs}
use flxc1000_rpi.App.DtcServices.Laws.{parse_dtcs, reported}
use flxc1000_rpi.App.Hooks.{IsAppServer}
use flxc1000_rpi.App.Memory.{dtcs_after}
use flxc1000_rpi.App.Turn.{turn, respond, store_session_type}
use flxc1000_rpi.Bytes.{IsU8}
use flxc1000_rpi.Doip.Header
use flxc1000_rpi.Doip.Message.Diagnostic
use flxc1000_rpi.Doip.Message.Routing
use flxc1000_rpi.Doip.Connection.Action.{UdsRequest, Effect}
use flxc1000_rpi.Doip.Connection.Framing.{Frame, stream_bytes}
use flxc1000_rpi.Doip.Connection.Process.{
  dispatch, handle_routing_activation, handle_diagnostic_message, answer_diagnostic_message,
  forward_request, write_response,
}
use flxc1000_rpi.Service.{
  Served, Service, accepts, reads, handles, quiet, taken, Reach, begin, after,
}
use flxc1000_rpi.Service.Answers.{timed, answers_of, IsOneRun, Heard, Reach-answered}
use flxc1000_rpi.Service.Dtcs.{Reach-reported}

-- A server that answers nothing.
abbrev silent : UdsServer (Unit {0}) SharedState
silent = record {
  session_type = λ s. 0x01;
  handle = λ source bytes now s shared. (tt, shared);
  tick = λ now s shared. (tt, shared);
  drain_outbox = λ s. ([], tt);
}

silent-IsAppServer : IsAppServer silent
silent-IsAppServer = record {
  handles = λ source request now s h. never stay;
  ticks = λ now s h. stay;
}

abbrev Reached : Service (Unit {0}) SharedState → Type 0
Reached = Reach (turn silent) 0x1000 tt (initial_state none none)

abbrev frame : ℕ → List ℕ → Frame
frame payload_type payload = record {
  protocol_version = 0x02;
  inverse_version = 0xFD;
  payload_type = payload_type;
  payload = payload;
}

abbrev activation : ℕ → Frame
activation low = frame 0x0005 (0x0E ∷ low ∷ 0x00 ∷ 0 ∷ 0 ∷ 0 ∷ 0 ∷ [])

abbrev clear : Frame
clear = frame 0x8001 (0x0E ∷ 0x80 ∷ 0x10 ∷ 0x00 ∷ 0x14 ∷ 0xFF ∷ 0xFF ∷ 0xFF ∷ [])

abbrev report : Frame
report = frame 0x8001 (0x0E ∷ 0x00 ∷ 0x10 ∷ 0x00 ∷ 0x19 ∷ 0x02 ∷ 0xFF ∷ [])

abbrev clear_request : UdsRequest
clear_request = record {
  source_address = 0x0E80;
  target_address = 0x1000;
  bytes = 0x14 ∷ 0xFF ∷ 0xFF ∷ 0xFF ∷ [];
}

abbrev report_request : UdsRequest
report_request = record {
  source_address = 0x0E00;
  target_address = 0x1000;
  bytes = 0x19 ∷ 0x02 ∷ 0xFF ∷ [];
}

abbrev write_ok : List Effect → List ℕ → Bool
write_ok log bytes = true

abbrev send_ok : List Effect → UdsRequest → Bool
send_ok log req = true

abbrev State : Type 0
State = (y : Service (Unit {0}) SharedState) × Reached y

abbrev accepted : State
accepted = (_, after (after begin (accepts 0 refl)) (accepts 1 refl))

abbrev of_first : List Frame
of_first = activation 0x00 ∷ report ∷ report ∷ []

abbrev of_second : List Frame
of_second = activation 0x80 ∷ clear ∷ []

of_first-AreBytes : All IsU8 (stream_bytes of_first [])
unfolding Header.encode
of_first-AreBytes = omega arith

of_second-AreBytes : All IsU8 (stream_bytes of_second [])
unfolding Header.encode
of_second-AreBytes = omega arith

abbrev both_read : State
both_read = (
  _,
  after
      (after accepted.1 (
        reads 0 (stream_bytes of_first []) of_first [] refl refl of_first-AreBytes (omega arith)
          (inl (omega arith)) refl))
      (reads 1 (stream_bytes of_second []) of_second [] refl refl of_second-AreBytes (omega arith)
        (inl (omega arith)) refl),
)

-- Both are activated, the first reads the DTCs, the second clears them, the first reads them again.
abbrev activated : State
unfolding dispatch handle_routing_activation Routing.parse Header.from_u16
activated = (
  _,
  after
      (after both_read.1 (
        handles 0 1 (activation 0x00) (report ∷ report ∷ []) write_ok send_ok _ _ refl refl
          (quiet refl)))
      (handles 1 2 (activation 0x80) (clear ∷ []) write_ok send_ok _ _ refl refl (quiet refl)),
)

abbrev exchanged : State
unfolding dispatch handle_routing_activation Routing.parse Header.from_u16 handle_diagnostic_message
    answer_diagnostic_message Diagnostic.parse forward_request write_response turn respond
    handle_clear_dtc handle_read_dtc store_session_type
exchanged = (
  _,
  after
      (after
        (after activated.1 (
          handles 0 3 report (report ∷ []) write_ok send_ok _ _ refl refl
            (taken report_request tt (initial_state none none) refl)))
        (handles 1 4 clear [] write_ok send_ok _ _ refl refl (taken clear_request tt _ refl)))
      (handles 0 5 report [] write_ok send_ok _ _ refl refl (taken report_request tt _ refl)),
)

-- What was served, newest first.
abbrev first_report : Served
first_report = record {
  peer = 0;
  now = 3;
  req = report_request;
  response = 0x59 ∷ 0x02 ∷ 0xFF ∷ 0x01 ∷ 0xE2 ∷ 0x40 ∷ 0x2F ∷ 0x03 ∷ 0x94 ∷ 0x47 ∷ 0x24 ∷ [];
}

abbrev clearing : Served
clearing = record { peer = 1; now = 4; req = clear_request; response = 0x54 ∷ [] }

abbrev second_report : Served
second_report = record {
  peer = 0;
  now = 5;
  req = report_request;
  response = 0x59 ∷ 0x02 ∷ 0xFF ∷ [];
}

exchanged-served : exchanged.0.served ≡ second_report ∷ clearing ∷ first_report ∷ []
unfolding dispatch handle_routing_activation Routing.parse Header.from_u16 handle_diagnostic_message
    answer_diagnostic_message Diagnostic.parse forward_request write_response turn respond
    handle_clear_dtc handle_read_dtc store_session_type report_dtcs
exchanged-served = refl

Reach-answered_example :
    IsOneRun (turn silent) tt (initial_state none none) exchanged.0.served exchanged.0.app
    × ((i : ℕ)
        → Heard 0x1000
            (exchanged.0.peers i).phase
            (exchanged.0.peers i).conn.log
            (answers_of i exchanged.0.served))
Reach-answered_example =
    Reach-answered (turn silent) tt (initial_state none none) 0x1000 exchanged.1

Reach-reported_example :
    (report : List ℕ) × (second_report.response ≡ 0x59 ∷ 0x02 ∷ 0xFF ∷ report)
    × (parse_dtcs report
        ≡ some (reported 0xFF (dtcs_after (timed (clearing ∷ first_report ∷ [])) initial_dtcs)))
Reach-reported_example =
    Reach-reported silent silent-IsAppServer 0x1000 none none tt [] (clearing ∷ first_report ∷ [])
      second_report 0xFF [] exchanged.1 exchanged-served refl
