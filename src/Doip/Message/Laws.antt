-- ===== src/Doip/Message/Laws.antt =====
-- flxc1000-doip/src/message.rs: every encoder writes one whole frame, and a diagnostic message
-- survives the round trip.
use flxc1000_rpi.Prelude.{
  ℕ, ◌+◌, ◌-◌, ◌≤◌, ◌<◌, ◌^◌, ◌≡◌, some, List, length, drop, arith, length-append,
}
use flxc1000_rpi.Bytes.{IsU16}
use flxc1000_rpi.Bytes.BigEndian.{u16_round_trip}
use flxc1000_rpi.Doip.Header
use flxc1000_rpi.Doip.Header.{PayloadType, DoipHeader, header_size, as_u16}
use flxc1000_rpi.Doip.Header.{
  diagnostic_message, diagnostic_message_positive_ack, diagnostic_message_negative_ack,
  alive_check_response, routing_activation_response, vehicle_announcement_message,
}
use flxc1000_rpi.Doip.Message.Diagnostic
use flxc1000_rpi.Doip.Message.Diagnostic.{
  DiagnosticMessage, DiagnosticMessageAck, DiagnosticMessageNack,
}
use flxc1000_rpi.Doip.Message.Routing
use flxc1000_rpi.Doip.Message.Routing.{RoutingActivationResponse}
use flxc1000_rpi.Doip.Message.Vehicle
use flxc1000_rpi.Doip.Message.Vehicle.{VehicleAnnouncement}
use flxc1000_rpi.Doip.Message.Alive
use flxc1000_rpi.Doip.Message.Alive.{AliveCheckResponse}

-- The bytes are one frame of type `t`: a header of this protocol version, of that type, whose
-- length field is the number of bytes behind it.
abbrev pub IsFrame : PayloadType → List ℕ → Type 0
IsFrame t bytes =
    (Header.parse bytes ≡ some (Header.new t (length bytes - header_size)))
    × (header_size ≤ length bytes)

-- A diagnostic message is encoded as one frame, where its length fits the 32 bits of the header:
-- the header has this protocol version, the type of the message, and the number of bytes behind it.
pub encode-IsFrame :
    (m : DiagnosticMessage)
    → 4 + length m.user_data < 2 ^ 32
    → IsFrame diagnostic_message (Diagnostic.encode m)
unfolding Diagnostic.encode Header.parse
encode-IsFrame m fits = ground arith

pub encode_ack-IsFrame :
    (m : DiagnosticMessageAck) → IsFrame diagnostic_message_positive_ack (Diagnostic.encode_ack m)
unfolding Diagnostic.encode_ack Header.parse
encode_ack-IsFrame m = ground arith

pub encode_nack-IsFrame :
    (m : DiagnosticMessageNack) → IsFrame diagnostic_message_negative_ack (Diagnostic.encode_nack m)
unfolding Diagnostic.encode_nack Header.parse
encode_nack-IsFrame m = ground arith

pub encode_alive-IsFrame : (m : AliveCheckResponse) → IsFrame alive_check_response (Alive.encode m)
unfolding Alive.encode Header.parse
encode_alive-IsFrame m = ground arith

pub encode_routing-IsFrame :
    (m : RoutingActivationResponse) → IsFrame routing_activation_response (Routing.encode m)
unfolding Routing.encode Header.parse
encode_routing-IsFrame m = ground arith

length-encode_vehicle :
    (m : VehicleAnnouncement)
    → length m.vin ≡ 17
    → length m.eid ≡ 6
    → length m.gid ≡ 6
    → length (Vehicle.encode m) ≡ 41
unfolding Vehicle.encode
length-encode_vehicle m hv he hg = simp length-append (omega arith)

-- A vehicle announcement with arrays of 17, 6 and 6 bytes is encoded as one frame.
pub encode_vehicle-IsFrame :
    (m : VehicleAnnouncement)
    → length m.vin ≡ 17
    → length m.eid ≡ 6
    → length m.gid ≡ 6
    → IsFrame vehicle_announcement_message (Vehicle.encode m)
unfolding Vehicle.encode Header.parse
encode_vehicle-IsFrame m hv he hg = ground (arith, length-encode_vehicle m hv he hg)

-- Parsing the payload of an encoded diagnostic message gives the message back, when its two
-- addresses fit 16 bits.
pub parse-encode_diagnostic :
    (m : DiagnosticMessage)
    → IsU16 m.source_address
    → IsU16 m.target_address
    → Diagnostic.parse (drop header_size (Diagnostic.encode m)) ≡ some m
unfolding Diagnostic.parse Diagnostic.encode
parse-encode_diagnostic m hs ht =
    ground (arith, u16_round_trip m.source_address, u16_round_trip m.target_address)
