-- ===== src/Boot/Tests.antt =====
-- The bootloader on a concrete download and a concrete seed.
use flxc1000_rpi.Ace.Config.{is_ok, any, names_did, names_writable}
use flxc1000_rpi.Boot.Config.{boot_server_config, boot_server_config-agrees}
use flxc1000_rpi.Prelude.{false, some, stay, once, ℕ, ◌≡◌, ◌↔◌, refl, List, [], ◌∷◌, arith}
use flxc1000_rpi.Bytes.{byte_at, u32_to_be_bytes}
use flxc1000_rpi.Ace.{UdsServer, own_image}
use flxc1000_rpi.Boot.Hooks.{IsBootServer, IsGranted, IsCalm, resets, turn-IsGranted}
use flxc1000_rpi.Boot.Turn.{turn}
use flxc1000_rpi.Doip.Connection.Action.{UdsRequest}
use flxc1000_rpi.Uds.Security.{calculate_key}
use flxc1000_rpi.Boot.{
  read_did, write_did, initial_handler, ecu_reset, BootHandler, request_download,
  request_transfer_exit, valid_key, validate_key, generate_seed,
}
use flxc1000_rpi.Boot.Transfer.{
  transfer_blocks, counters, blocks_bytes, transfer_blocks-request_download,
}
use flxc1000_rpi.Boot.Security.{seed_number, validate_key-generate_seed_iff}

abbrev left_over : BootHandler
left_over = record { pending_reset = 0; session_type = 2; transfer_buf = 9 ∷ [] }

abbrev two_blocks : List (ℕ × List ℕ)
two_blocks = (1, 10 ∷ 11 ∷ []) ∷ (2, 12 ∷ []) ∷ []

transfer_blocks-request_download_example :
    let (answers, full) = transfer_blocks two_blocks (request_download left_over).1 in
    (answers ≡ counters two_blocks)
    × (full.transfer_buf ≡ blocks_bytes two_blocks)
    × ((request_transfer_exit full).1 ≡ record left_over { transfer_buf = [] })
transfer_blocks-request_download_example = transfer_blocks-request_download two_blocks left_over

validate_key-generate_seed_iff_example :
    (validate_key 3 (generate_seed 3 1) (0x40 ∷ 0x9A ∷ 0xC7 ∷ 0x5E ∷ []) ≡ valid_key)
    ↔ ((0x40 ∷ 0x9A ∷ 0xC7 ∷ 0x5E ∷ []) ≡ u32_to_be_bytes (calculate_key (seed_number 1) 3))
validate_key-generate_seed_iff_example =
    validate_key-generate_seed_iff 3 1 0x40 0x9A 0xC7 0x5E (omega arith) (omega arith) (omega arith)
      (omega arith)

-- The key above is the accepted one.
key-accepted : validate_key 3 (generate_seed 3 1) (0x40 ∷ 0x9A ∷ 0xC7 ∷ 0x5E ∷ []) ≡ valid_key
unfolding validate_key generate_seed
key-accepted = refl

-- A server that passes the second byte of each request on to the reset.
abbrev resetting : UdsServer (Unit {0}) BootHandler
resetting = record {
  session_type = λ s. 0x02;
  handle = λ source bytes now s h. (tt, (ecu_reset (byte_at bytes 1) h).1);
  tick = λ now s h. (tt, h);
  drain_outbox = λ s. ((0x0E00, 0x51 ∷ 0x03 ∷ []) ∷ [], tt);
}

abbrev second_byte : List ℕ → ℕ
second_byte bytes = byte_at bytes 1

resetting-IsBootServer : IsBootServer second_byte resetting
resetting-IsBootServer = record {
  handles = λ source bytes now s h. once stay (resets h) stay;
  ticks = λ now s h. stay;
}

abbrev soft_reset : UdsRequest
soft_reset = record { source_address = 0x0E00; target_address = 0x1000; bytes = 0x11 ∷ 0x03 ∷ [] }

turn-IsGranted_example :
    IsGranted (second_byte soft_reset.bytes) (turn resetting 7 soft_reset tt initial_handler).exec
    × IsCalm (turn resetting 7 soft_reset tt initial_handler).shared
turn-IsGranted_example =
    turn-IsGranted second_byte resetting resetting-IsBootServer 7 soft_reset tt initial_handler refl

-- This turn executes the bootloader again.
soft-executed : (turn resetting 7 soft_reset tt initial_handler).exec ≡ some own_image
unfolding turn ecu_reset
soft-executed = refl

boot_server_config-agrees_example :
    (is_ok (read_did 0xF186 initial_handler) ≡ any (names_did 0xF186) boot_server_config.settings)
    × (any (names_writable 0xF186) boot_server_config.settings ≡ false)
    × (is_ok (write_did 0xF186 (1 ∷ []) initial_handler).0 ≡ false)
    × ((write_did 0xF186 (1 ∷ []) initial_handler).1 ≡ initial_handler)
boot_server_config-agrees_example = boot_server_config-agrees 0xF186 (1 ∷ []) initial_handler
