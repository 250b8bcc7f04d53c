-- ===== src/Doip/Server.antt =====
-- flxc1000-doip/src/server.rs: the configuration, and the answer to a UDP datagram. The
-- tasks are in `Tasks`.
pub mod Form
pub mod Mac
pub mod Laws
pub mod Address
pub mod Tasks
pub mod Runs
mod Tests
use flxc1000_rpi.Prelude.{ℕ, ltb, if◌then◌else◌, Option, none, some, List, length, take, replicate}
use flxc1000_rpi.Doip.Header
use flxc1000_rpi.Doip.Header.{
  PayloadType, DoipHeader, header_size, vehicle_identification_request,
  vehicle_identification_request_eid, vehicle_identification_request_vin,
}
use flxc1000_rpi.Doip.Message.Vehicle
use flxc1000_rpi.Doip.Message.Vehicle.{VehicleAnnouncement}

pub record DoipConfig : Type 0 where
  pub ecu_address : ℕ  -- u16
  pub vin : List ℕ  -- [u8; 17]
  pub eid : List ℕ  -- [u8; 6]
  pub gid : List ℕ  -- [u8; 6]

unfoldable pub new : ℕ → List ℕ → DoipConfig
new ecu_address vin = record {
  ecu_address = ecu_address;
  vin = vin;
  eid = replicate 6 0x00;
  gid = replicate 6 0x00;
}

unfoldable pub with_eid : List ℕ → DoipConfig → DoipConfig
with_eid eid c = record c { eid = eid }

unfoldable pub announcement : DoipConfig → VehicleAnnouncement
announcement c = record {
  vin = c.vin;
  logical_address = c.ecu_address;
  eid = c.eid;
  gid = c.gid;
  further_action = 0x00;
  sync_status = 0x00;
}

-- The `match` on the payload type of a datagram.
unfoldable pub identify : DoipConfig → Option PayloadType → Option (List ℕ)
unfolding announcement
identify c (some vehicle_identification_request) = some (Vehicle.encode (announcement c))
identify c (some vehicle_identification_request_eid) = some (Vehicle.encode (announcement c))
identify c (some vehicle_identification_request_vin) = some (Vehicle.encode (announcement c))
identify c other = none

-- The size of the receive buffer.
abbrev pub buffer_size : ℕ
buffer_size = 1024

-- One turn of the loop of `run_udp_server`: what is sent back for a datagram, if anything. The
-- buffer holds at most its first 1024 bytes.
unfoldable pub on_datagram : DoipConfig → List ℕ → Option (List ℕ)
unfolding identify
on_datagram c datagram =
    let received = take buffer_size datagram in
    if ltb (length received) header_size then none else elim (Header.parse received) [
      | none ↦ none
      | some header ↦ identify c (Header.from_u16 header.payload_type)
    ]
