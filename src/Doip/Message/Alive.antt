-- ===== src/Doip/Message/Alive.antt =====
-- flxc1000-doip/src/message.rs: the alive check response.
use flxc1000_rpi.Prelude.{ℕ, List, ◌++◌}
use flxc1000_rpi.Bytes.{u16_to_be_bytes}
use flxc1000_rpi.Doip.Header
use flxc1000_rpi.Doip.Header.{alive_check_response}

pub record AliveCheckResponse : Type 0 where
  pub source_address : ℕ  -- u16

unfoldable pub encode : AliveCheckResponse → List ℕ
unfolding Header.encode Header.new
encode m =
    let header = Header.new alive_check_response 2 in
    Header.encode header ++ u16_to_be_bytes m.source_address
