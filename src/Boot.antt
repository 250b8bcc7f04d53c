-- ===== src/Boot.antt =====
-- flxc1000-boot/src/main.rs: the hooks of the bootloader, which the UDS server of the crate
-- ace-server calls, and its security provider.
pub mod Transfer
pub mod Security
pub mod Turn
pub mod Hooks
pub mod Config
mod Tests
use flxc1000_rpi.Prelude.{
  ℕ, ◌*◌, ◌%◌, ◌^◌, bit_xor, ltb, ◌==◌, ◌||◌, if◌then◌else◌, List, [], ◌∷◌, ◌++◌, length,
}
use flxc1000_rpi.Bytes.{byte_at, u32_to_be_bytes, u32_from_be_bytes}
use flxc1000_rpi.Ace.{request_out_of_range, sub_function_not_supported, Result, ok, err}
use flxc1000_rpi.App.{reset_hard, reset_none}

abbrev pub ecu_address : ℕ
ecu_address = 0x1000

abbrev pub variant_id : List ℕ
variant_id = 0xFF ∷ 0x00 ∷ 0x00 ∷ []

abbrev pub reset_soft : ℕ
reset_soft = 3

-- The handler with the state that it shares with the main loop.
pub record BootHandler : Type 0 where
  pub pending_reset : ℕ  -- u8
  pub session_type : ℕ  -- u8
  pub transfer_buf : List ℕ

-- The handler that `main` begins with.
abbrev pub initial_handler : BootHandler
initial_handler = record { pending_reset = reset_none; session_type = 0x01; transfer_buf = [] }

unfoldable pub read_did : ℕ → BootHandler → Result (List ℕ)
read_did did h =
    if did == 0xF100
    then ok variant_id
    else if did == 0xF186
    then ok (h.session_type ∷ [])
    else err request_out_of_range

unfoldable pub write_did : ℕ → List ℕ → BootHandler → Result (Unit {0}) × BootHandler
write_did did bytes h = (err request_out_of_range, h)

unfoldable pub ecu_reset : ℕ → BootHandler → Result (Unit {0}) × BootHandler
ecu_reset reset_type h =
    if reset_type == 0x01
    then (ok tt, record h { pending_reset = reset_hard })
    else if reset_type == 0x03
    then (ok tt, record h { pending_reset = reset_soft })
    else (err sub_function_not_supported, h)

unfoldable pub request_download : BootHandler → Result (List ℕ) × BootHandler
request_download h = (ok (0x20 ∷ 0x0F ∷ 0xFF ∷ []), record h { transfer_buf = [] })

unfoldable pub transfer_data : ℕ → List ℕ → BootHandler → Result (List ℕ) × BootHandler
transfer_data block_sequence_counter bytes h =
    (ok (block_sequence_counter ∷ []), record h { transfer_buf = h.transfer_buf ++ bytes })

unfoldable pub request_transfer_exit : BootHandler → Result (List ℕ) × BootHandler
request_transfer_exit h = (ok [], record h { transfer_buf = [] })

-- `SecurityError::InvalidKey` is the only error.
pub data KeyResult : Type 0 where
  valid_key invalid_key : KeyResult

-- `nanos` are the low 32 bits of the nanoseconds of the system time.
unfoldable pub generate_seed : ℕ → ℕ → List ℕ
generate_seed level nanos = u32_to_be_bytes (nanos * 2654435761 % 2 ^ 32)

unfoldable pub validate_key : ℕ → List ℕ → List ℕ → KeyResult
validate_key level seed key =
    if ltb (length seed) 4 || ltb (length key) 4
    then invalid_key
    else (let seed_u32 =
          u32_from_be_bytes (byte_at seed 0) (byte_at seed 1) (byte_at seed 2) (byte_at seed 3) in
        let expected = bit_xor seed_u32 0xDEAD_BEEF in
        let actual =
          u32_from_be_bytes (byte_at key 0) (byte_at key 1) (byte_at key 2) (byte_at key 3) in
        if actual == expected then valid_key else invalid_key)
