-- ===== src/Doip/Message/Routing.antt =====
-- flxc1000-doip/src/message.rs: routing activation, its request and its response.
use flxc1000_rpi.Prelude.{ℕ, ◌+◌, ltb, if◌then◌else◌, Option, none, some, List, ◌∷◌, ◌++◌, length}
use flxc1000_rpi.Bytes.{
  byte_at, u16_to_be_bytes, u16_from_be_bytes, u32_to_be_bytes, u32_from_be_bytes,
}
use flxc1000_rpi.Doip.Header
use flxc1000_rpi.Doip.Header.{routing_activation_response}

pub record RoutingActivationRequest : Type 0 where
  pub source_address : ℕ  -- u16
  pub activation_type : ℕ  -- u8
  pub reserved : ℕ  -- u32

unfoldable pub parse : List ℕ → Option RoutingActivationRequest
parse payload =
    if ltb (length payload) 7
    then none
    else some (record {
      source_address = u16_from_be_bytes (byte_at payload 0) (byte_at payload 1);
      activation_type = byte_at payload 2;
      reserved =
          u32_from_be_bytes (byte_at payload 3) (byte_at payload 4) (byte_at payload 5)
            (byte_at payload 6);
    })

pub record RoutingActivationResponse : Type 0 where
  pub tester_address : ℕ  -- u16
  pub entity_address : ℕ  -- u16
  pub response_code : ℕ  -- u8
  pub reserved : ℕ  -- u32

-- `routing_response_code::SUCCESS`, the only code of that module that is used.
abbrev pub success : ℕ
success = 0x10

unfoldable pub encode : RoutingActivationResponse → List ℕ
unfolding Header.encode Header.new
encode m =
    let payload_len = 2 + 2 + 1 + 4 in
    let header = Header.new routing_activation_response payload_len in
    Header.encode header
    ++ (u16_to_be_bytes m.tester_address
        ++ (u16_to_be_bytes m.entity_address ++ (m.response_code ∷ u32_to_be_bytes m.reserved)))
