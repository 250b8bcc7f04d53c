-- ===== src/Doip/Message/Vehicle.antt =====
-- flxc1000-doip/src/message.rs: the vehicle announcement. The arrays `[u8; 17]` and `[u8; 6]` are
-- lists; their lengths are a hypothesis where one is needed.
use flxc1000_rpi.Prelude.{ℕ, ◌+◌, List, [], ◌∷◌, ◌++◌}
use flxc1000_rpi.Bytes.{u16_to_be_bytes}
use flxc1000_rpi.Doip.Header
use flxc1000_rpi.Doip.Header.{vehicle_announcement_message}

pub record VehicleAnnouncement : Type 0 where
  pub vin : List ℕ  -- [u8; 17]
  pub logical_address : ℕ  -- u16
  pub eid : List ℕ  -- [u8; 6]
  pub gid : List ℕ  -- [u8; 6]
  pub further_action : ℕ  -- u8
  pub sync_status : ℕ  -- u8

unfoldable pub encode : VehicleAnnouncement → List ℕ
unfolding Header.encode Header.new
encode m =
    let payload_len = 17 + 2 + 6 + 6 + 1 + 1 in
    let header = Header.new vehicle_announcement_message payload_len in
    Header.encode header
    ++ (m.vin
        ++ (u16_to_be_bytes m.logical_address
            ++ (m.eid ++ (m.gid ++ (m.further_action ∷ m.sync_status ∷ [])))))
