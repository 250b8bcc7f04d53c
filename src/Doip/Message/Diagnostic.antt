-- ===== src/Doip/Message/Diagnostic.antt =====
-- flxc1000-doip/src/message.rs: the diagnostic message and its two acknowledgements.
use flxc1000_rpi.Prelude.{
  ℕ, ◌+◌, ◌%◌, ◌^◌, ltb, if◌then◌else◌, Option, none, some, List, [], ◌∷◌, ◌++◌, length, drop,
}
use flxc1000_rpi.Bytes.{byte_at, u16_to_be_bytes, u16_from_be_bytes}
use flxc1000_rpi.Doip.Header
use flxc1000_rpi.Doip.Header.{
  diagnostic_message, diagnostic_message_positive_ack, diagnostic_message_negative_ack,
}

pub record DiagnosticMessage : Type 0 where
  pub source_address : ℕ  -- u16
  pub target_address : ℕ  -- u16
  pub user_data : List ℕ

unfoldable pub parse : List ℕ → Option DiagnosticMessage
parse payload =
    if ltb (length payload) 4
    then none
    else some (record {
      source_address = u16_from_be_bytes (byte_at payload 0) (byte_at payload 1);
      target_address = u16_from_be_bytes (byte_at payload 2) (byte_at payload 3);
      user_data = drop 4 payload;
    })

-- `payload_len as u32` keeps the low 32 bits of the `usize`.
unfoldable pub encode : DiagnosticMessage → List ℕ
unfolding Header.encode Header.new
encode m =
    let payload_len = 4 + length m.user_data in
    let header = Header.new diagnostic_message (payload_len % 2 ^ 32) in
    Header.encode header
    ++ (u16_to_be_bytes m.source_address ++ (u16_to_be_bytes m.target_address ++ m.user_data))

pub record DiagnosticMessageAck : Type 0 where
  pub source_address : ℕ  -- u16
  pub target_address : ℕ  -- u16
  pub ack_code : ℕ  -- u8

unfoldable pub encode_ack : DiagnosticMessageAck → List ℕ
unfolding Header.encode Header.new
encode_ack m =
    let header = Header.new diagnostic_message_positive_ack 5 in
    Header.encode header
    ++ (u16_to_be_bytes m.source_address ++ (u16_to_be_bytes m.target_address ++ (m.ack_code ∷ [])))

pub record DiagnosticMessageNack : Type 0 where
  pub source_address : ℕ  -- u16
  pub target_address : ℕ  -- u16
  pub nack_code : ℕ  -- u8

-- `diag_nack_code::UNKNOWN_TARGET_ADDRESS`, the only code of that module that is used.
abbrev pub unknown_target_address : ℕ
unknown_target_address = 0x03

unfoldable pub encode_nack : DiagnosticMessageNack → List ℕ
unfolding Header.encode Header.new
encode_nack m =
    let header = Header.new diagnostic_message_negative_ack 5 in
    Header.encode header
    ++ (u16_to_be_bytes m.source_address
        ++ (u16_to_be_bytes m.target_address ++ (m.nack_code ∷ [])))
