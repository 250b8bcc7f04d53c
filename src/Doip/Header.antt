-- ===== src/Doip/Header.antt =====
-- flxc1000-doip/src/header.rs: the payload types and the 8-byte generic header.
pub mod Codec
use flxc1000_rpi.Prelude.{
  ℕ, ◌-◌, ◌/◌, ◌%◌, ◌==◌, ltb, if◌then◌else◌, Bool, ◌&&◌, Option, none, some, List, [], ◌∷◌, ◌++◌,
  length,
}
use flxc1000_rpi.Bytes.{
  byte_at, u16_to_be_bytes, u16_from_be_bytes, u32_to_be_bytes, u32_from_be_bytes,
}

abbrev pub protocol_version : ℕ
protocol_version = 0x02

-- `!PROTOCOL_VERSION`: the complement of a `u8` is its distance from 255.
abbrev pub inverse_version : ℕ
inverse_version = 255 - protocol_version

pub data PayloadType : Type 0 where
  vehicle_identification_request : PayloadType
  vehicle_identification_request_eid : PayloadType
  vehicle_identification_request_vin : PayloadType
  vehicle_announcement_message : PayloadType
  routing_activation_request : PayloadType
  routing_activation_response : PayloadType
  alive_check_request : PayloadType
  alive_check_response : PayloadType
  diagnostic_message : PayloadType
  diagnostic_message_positive_ack : PayloadType
  diagnostic_message_negative_ack : PayloadType

unfoldable pub from_u16 : ℕ → Option PayloadType
from_u16 v =
    if v == 0x0001
    then some vehicle_identification_request
    else if v == 0x0002
    then some vehicle_identification_request_eid
    else if v == 0x0003
    then some vehicle_identification_request_vin
    else if v == 0x0004
    then some vehicle_announcement_message
    else if v == 0x0005
    then some routing_activation_request
    else if v == 0x0006
    then some routing_activation_response
    else if v == 0x0007
    then some alive_check_request
    else if v == 0x0008
    then some alive_check_response
    else if v == 0x8001
    then some diagnostic_message
    else if v == 0x8002
    then some diagnostic_message_positive_ack
    else if v == 0x8003
    then some diagnostic_message_negative_ack
    else none

-- The enum's discriminants.
unfoldable pub as_u16 : PayloadType → ℕ
as_u16 vehicle_identification_request = 0x0001
as_u16 vehicle_identification_request_eid = 0x0002
as_u16 vehicle_identification_request_vin = 0x0003
as_u16 vehicle_announcement_message = 0x0004
as_u16 routing_activation_request = 0x0005
as_u16 routing_activation_response = 0x0006
as_u16 alive_check_request = 0x0007
as_u16 alive_check_response = 0x0008
as_u16 diagnostic_message = 0x8001
as_u16 diagnostic_message_positive_ack = 0x8002
as_u16 diagnostic_message_negative_ack = 0x8003

pub record DoipHeader : Type 0 where
  pub protocol_version : ℕ  -- u8
  pub inverse_version : ℕ  -- u8
  pub payload_type : ℕ  -- u16
  pub payload_length : ℕ  -- u32

-- `DoipHeader::SIZE`
abbrev pub header_size : ℕ
header_size = 8

unfoldable pub new : PayloadType → ℕ → DoipHeader
unfolding as_u16
new payload_type payload_length = record {
  protocol_version = protocol_version;
  inverse_version = inverse_version;
  payload_type = as_u16 payload_type;
  payload_length = payload_length;
}

unfoldable pub parse : List ℕ → Option DoipHeader
parse bytes =
    if ltb (length bytes) header_size
    then none
    else some (record {
      protocol_version = byte_at bytes 0;
      inverse_version = byte_at bytes 1;
      payload_type = u16_from_be_bytes (byte_at bytes 2) (byte_at bytes 3);
      payload_length =
          u32_from_be_bytes (byte_at bytes 4) (byte_at bytes 5) (byte_at bytes 6) (byte_at bytes 7);
    })

unfoldable pub encode : DoipHeader → List ℕ
encode h =
    h.protocol_version
    ∷ h.inverse_version
    ∷ (u16_to_be_bytes h.payload_type ++ u32_to_be_bytes h.payload_length)

unfoldable pub is_valid : DoipHeader → Bool
is_valid h = h.protocol_version == protocol_version && h.inverse_version == inverse_version
