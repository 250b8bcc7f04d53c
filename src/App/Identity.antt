-- ===== src/App/Identity.antt =====
-- flxc1000-app/src/main.rs, flxc1000-boot/src/main.rs and flxc1000-doip/src/server.rs together: how
-- both programs announce themselves.
use flxc1000_rpi.Prelude.{ℕ, ◌≡◌, refl, some, List, [], ◌∷◌, ◌++◌, drop, replicate}
use flxc1000_rpi.App.{ecu_address, initial_vin}
use flxc1000_rpi.Doip.Header
use flxc1000_rpi.Doip.Header.{header_size, vehicle_announcement_message}
use flxc1000_rpi.Doip.Message.Laws.{IsFrame, encode_vehicle-IsFrame}
use flxc1000_rpi.Doip.Message.Vehicle
use flxc1000_rpi.Doip.Server
use flxc1000_rpi.Doip.Server.{DoipConfig, with_eid, announcement, on_datagram}
use flxc1000_rpi.Doip.Server.Address.{get_mac_address-IsMac}
use flxc1000_rpi.Doip.Server.Laws.{on_datagram_iff}
use flxc1000_rpi.Doip.Server.Mac.{Interface, get_mac_address}

-- The configuration that both programs give to their DoIP server; the constants are the same.
unfoldable pub doip_config : List Interface → DoipConfig
unfolding Server.new with_eid
doip_config interfaces = with_eid (get_mac_address interfaces) (Server.new ecu_address initial_vin)

encode-fields :
    (interfaces : List Interface)
    → drop header_size (Vehicle.encode (announcement (doip_config interfaces)))
      ≡ initial_vin ++ (0x10 ∷ 0x00 ∷ (get_mac_address interfaces ++ (replicate 6 0 ++ 0 ∷ 0 ∷ [])))
unfolding doip_config announcement Vehicle.encode Header.encode Header.new
encode-fields interfaces = refl

-- Whatever datagram is answered, the answer is one vehicle announcement, and behind its header it
-- holds the VIN, the address 0x1000, the MAC address that was found, a group of six zeros, and the
-- two status bytes zero.
pub on_datagram-doip_config :
    (interfaces : List Interface) (datagram answer : List ℕ)
    → on_datagram (doip_config interfaces) datagram ≡ some answer
    → IsFrame vehicle_announcement_message answer
      × (drop header_size answer
          ≡ initial_vin
            ++ (0x10 ∷ 0x00 ∷ (get_mac_address interfaces ++ (replicate 6 0 ++ 0 ∷ 0 ∷ []))))
unfolding doip_config announcement
on_datagram-doip_config interfaces datagram answer e =
    let (h, parsed, low, high, same) =
      (on_datagram_iff (doip_config interfaces) datagram answer).0 e in
    rw same (
      encode_vehicle-IsFrame (announcement (doip_config interfaces)) refl
          (get_mac_address-IsMac interfaces).0 refl,
      encode-fields interfaces,
    )
