-- ===== src/Doip/Tests.antt =====
-- The DoIP layer on concrete bytes: a tester at 0x0E00 activates the routing to the ECU at 0x1000
-- and sends a tester present, as README.md shows.
use flxc1000_rpi.Prelude.{◌↔◌, ℕ, ◌≡◌, ◌≢◌, refl, true, some, List, [], ◌∷◌, ◌++◌, drop, All, arith}
use flxc1000_rpi.Bytes.{IsU8}
use flxc1000_rpi.Doip.Header
use flxc1000_rpi.Doip.Header.{
  DoipHeader, header_size, diagnostic_message, vehicle_announcement_message,
}
use flxc1000_rpi.Doip.Header.Codec.{parse-encode_iff, IsHeader}
use flxc1000_rpi.Doip.Message.Diagnostic
use flxc1000_rpi.Doip.Message.Diagnostic.{DiagnosticMessage}
use flxc1000_rpi.Doip.Message.Vehicle.{VehicleAnnouncement}
use flxc1000_rpi.Doip.Message.Routing
use flxc1000_rpi.Doip.Connection.Messages.{on_event-malformed}
use flxc1000_rpi.Doip.Connection.Action.{
  invalid_diagnostic_message, active, awaiting_activation, wrote, forwarded, Env, Conn, ok,
  out_of_fuel,
}
use flxc1000_rpi.Doip.Connection.Process.{
  activation_response, positive_ack, uds_response, handle_diagnostic_message, process_tcp_data,
  handle_routing_activation, dispatch,
}
use flxc1000_rpi.Doip.Connection.Framing.{
  Frame, stream_bytes, AreFrames, IsIncomplete, frame_bytes, handle_frames,
}
use flxc1000_rpi.Doip.Connection.Total.{process_tcp_data-covers, process_tcp_data-ends}
use flxc1000_rpi.Doip.Connection.Loop.{ended, processing_error, running, read_ok, on_event}
use flxc1000_rpi.Doip.Connection.Exchange.{
  IsHealthy, exchanged, handle_diagnostic_message-exchanged, partial_read_dropped,
}

abbrev ecu : ℕ
ecu = 0x1000

abbrev tester : ℕ
tester = 0x0E00

-- A UDS side that answers every request with a positive tester present.
abbrev lab : Env
lab = record {
  write_ok = λ log bytes. true;
  send_ok = λ log r. true;
  reply = λ log r. some (0x7E ∷ 0x00 ∷ []);
}

lab-IsHealthy : IsHealthy lab
lab-IsHealthy = record { writes = λ log bytes. refl; sends = λ log r. refl }

abbrev activation : Frame
activation = record {
  protocol_version = 0x02;
  inverse_version = 0xFD;
  payload_type = 0x0005;
  payload = 0x0E ∷ 0x00 ∷ 0x00 ∷ 0x00 ∷ 0x00 ∷ 0x00 ∷ 0x00 ∷ [];
}

abbrev present : Frame
present = record {
  protocol_version = 0x02;
  inverse_version = 0xFD;
  payload_type = 0x8001;
  payload = 0x0E ∷ 0x00 ∷ 0x10 ∷ 0x00 ∷ 0x3E ∷ 0x00 ∷ [];
}

-- The bytes of the activation in README.md.
abbrev activation_bytes : List ℕ
activation_bytes =
    0x02
    ∷ 0xFD
    ∷ 0x00
    ∷ 0x05
    ∷ 0x00
    ∷ 0x00
    ∷ 0x00
    ∷ 0x07
    ∷ (0x0E ∷ 0x00 ∷ 0x00 ∷ 0x00 ∷ 0x00 ∷ 0x00 ∷ 0x00 ∷ [])

activation_frame : frame_bytes activation ≡ activation_bytes
unfolding Header.encode
activation_frame = refl

abbrev fresh : Conn
fresh = record { state = awaiting_activation; log = [] }

abbrev ready : Conn
ready = record { state = active tester; log = [] }

-- The two frames in one read, and the beginning of a third.
session_runs :
    process_tcp_data lab ecu (stream_bytes (activation ∷ present ∷ []) (0x02 ∷ 0xFD ∷ [])) fresh ≡ (
      ok tt,
      record {
        state = active tester;
        log =
            wrote (uds_response ecu tester (0x7E ∷ 0x00 ∷ []))
            ∷ forwarded
                (record { source_address = tester; target_address = ecu; bytes = 0x3E ∷ 0x00 ∷ [] })
            ∷ wrote (positive_ack ecu tester)
            ∷ wrote (activation_response ecu tester)
            ∷ [];
      },
    )
unfolding process_tcp_data dispatch handle_routing_activation handle_diagnostic_message Header.parse
    Header.encode Header.from_u16 Routing.parse Diagnostic.parse
session_runs = refl

activation-AreBytes : All IsU8 activation_bytes
activation-AreBytes = omega arith

process_tcp_data-covers_example :
    (fs : List Frame) × (rest : List ℕ) × AreFrames fs
    × IsIncomplete rest
    × (activation_bytes ≡ stream_bytes fs rest)
    × (process_tcp_data lab ecu activation_bytes ≡ handle_frames lab ecu fs)
process_tcp_data-covers_example =
    process_tcp_data-covers lab ecu activation_bytes activation-AreBytes

process_tcp_data-ends_example : (process_tcp_data lab ecu activation_bytes fresh).0 ≢ out_of_fuel
process_tcp_data-ends_example = process_tcp_data-ends lab ecu activation_bytes fresh

abbrev present_message : DiagnosticMessage
present_message = record {
  source_address = 0x0E00;
  target_address = 0x1000;
  user_data = 0x3E ∷ 0x00 ∷ [];
}

handle_diagnostic_message-exchanged_example :
    handle_diagnostic_message lab ecu (drop header_size (Diagnostic.encode present_message)) ready
    ≡ (ok tt, record ready { log = exchanged lab ecu tester present_message [] })
handle_diagnostic_message-exchanged_example =
    handle_diagnostic_message-exchanged lab ecu lab-IsHealthy tester present_message ready
      (omega arith) (omega arith) refl

abbrev first_half : List ℕ
first_half = 0xFD ∷ 0x00 ∷ 0x05 ∷ 0x00 ∷ 0x00 ∷ 0x00 ∷ 0x07 ∷ (0x0E ∷ 0x00 ∷ 0x00 ∷ [])

abbrev second_half : List ℕ
second_half = 0x00 ∷ 0x00 ∷ 0x00 ∷ 0x00 ∷ []

halves_split : frame_bytes activation ≡ (0x02 ∷ first_half) ++ second_half
unfolding Header.encode
halves_split = refl

partial_read_dropped_example :
    on_event lab ecu (read_ok (0x02 ∷ first_half)) 5 fresh 0 ≡ running fresh 5
partial_read_dropped_example =
    partial_read_dropped lab ecu 5 0 fresh activation 0x02 first_half second_half (omega arith)
      (λ e. cc) halves_split

abbrev some_header : DoipHeader
some_header = record {
  protocol_version = 0x02;
  inverse_version = 0xFD;
  payload_type = 0x8001;
  payload_length = 6;
}

abbrev activation_header : DoipHeader
activation_header = record {
  protocol_version = 0x02;
  inverse_version = 0xFD;
  payload_type = 0x0005;
  payload_length = 7;
}

activation_parses : Header.parse activation_bytes ≡ some activation_header
unfolding Header.parse
activation_parses = refl

parse-encode_iff_example : (Header.parse activation_bytes ≡ some activation_header) ↔ (
    IsHeader activation_header
    × (Header.encode activation_header ++ drop header_size activation_bytes ≡ activation_bytes))
parse-encode_iff_example = parse-encode_iff activation_bytes activation_header activation-AreBytes

abbrev announcement : VehicleAnnouncement
announcement = record {
  vin = 1 ∷ 2 ∷ 3 ∷ 4 ∷ 5 ∷ 6 ∷ 7 ∷ 8 ∷ 9 ∷ 10 ∷ 11 ∷ 12 ∷ 13 ∷ 14 ∷ 15 ∷ 16 ∷ 17 ∷ [];
  logical_address = 0x1000;
  eid = 1 ∷ 2 ∷ 3 ∷ 4 ∷ 5 ∷ 6 ∷ [];
  gid = 0 ∷ 0 ∷ 0 ∷ 0 ∷ 0 ∷ 0 ∷ [];
  further_action = 0;
  sync_status = 0;
}

-- A frame for a diagnostic message of three bytes.
abbrev malformed : Frame
malformed = record {
  protocol_version = 0x02;
  inverse_version = 0xFD;
  payload_type = 0x8001;
  payload = 0x0E ∷ 0x00 ∷ 0x10 ∷ [];
}

abbrev malformed_bytes : List ℕ
malformed_bytes = 0xFD ∷ 0x80 ∷ 0x01 ∷ 0x00 ∷ 0x00 ∷ 0x00 ∷ 0x03 ∷ 0x0E ∷ 0x00 ∷ 0x10 ∷ []

malformed_frame : 0x02 ∷ malformed_bytes ≡ stream_bytes (malformed ∷ []) []
unfolding Header.encode
malformed_frame = refl

on_event-malformed_example :
    on_event lab ecu (read_ok (0x02 ∷ malformed_bytes)) 9 ready 5
    ≡ ended (processing_error invalid_diagnostic_message) ready
on_event-malformed_example =
    on_event-malformed lab ecu tester lab-IsHealthy [] malformed [] 0x02 malformed_bytes 9 5 ready
      tt (omega arith) refl (omega arith) malformed_frame refl
