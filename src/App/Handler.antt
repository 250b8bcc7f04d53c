-- ===== src/App/Handler.antt =====
-- flxc1000-app/src/main.rs: the hooks for data identifiers and the reset.
use flxc1000_rpi.Prelude.{
  ℕ, ◌==◌, if◌then◌else◌, true, false, not, Option, some, List, [], ◌∷◌, length,
}
use flxc1000_rpi.Bytes.{u32_to_be_bytes}
use flxc1000_rpi.Ace.{
  request_out_of_range, incorrect_message_length_or_invalid_format, conditions_not_correct,
  sub_function_not_supported, Result, ok, err,
}
use flxc1000_rpi.App.Leds.{set_led}
use flxc1000_rpi.App.{SharedState, variant_id, reset_hard}

-- Reading 0xF200 switches the first LED on and off again.
unfoldable pub read_did : ℕ → SharedState → Result (List ℕ) × SharedState
read_did did shared =
    if did == 0xF100
    then (ok variant_id, shared)
    else if did == 0xF186
    then (ok (shared.session_type ∷ []), shared)
    else if did == 0xF190
    then (ok shared.vin, shared)
    else if did == 0xF200
    then (
      ok (u32_to_be_bytes shared.flux_capacitor_power),
      record shared { leds = set_led shared.gpio 0 false (set_led shared.gpio 0 true shared.leds) },
    )
    else (err request_out_of_range, shared)

unfoldable pub write_did : ℕ → List ℕ → SharedState → Result (Unit {0}) × SharedState
write_did did bytes shared =
    if did == 0xF190
    then (if not (length bytes == 17)
        then (err incorrect_message_length_or_invalid_format, shared)
        else (ok tt, record shared { vin = bytes }))
    else (err request_out_of_range, shared)

-- The result of `fs::write` on /data/boot_state; a write that fails may leave anything behind.
pub data WriteResult : Type 0 where
  written : WriteResult
  failed : Option (List ℕ) → WriteResult

-- `boot_requested` and a line end.
abbrev pub boot_requested : List ℕ
boot_requested =
    b'b' ∷ b'o' ∷ b'o' ∷ b't' ∷ b'_' ∷ b'r' ∷ b'e' ∷ b'q' ∷ b'u' ∷ b'e' ∷ b's' ∷ b't' ∷ b'e' ∷ b'd'
    ∷ 10 ∷ []

abbrev pub request_boot : WriteResult → SharedState → Result (Unit {0}) × SharedState
request_boot (failed left) shared =
    (err conditions_not_correct, record shared { boot_state = left })
request_boot written shared =
    (ok tt, record shared { boot_state = some boot_requested; pending_reset = reset_hard })

unfoldable pub ecu_reset : ℕ → WriteResult → SharedState → Result (Unit {0}) × SharedState
ecu_reset reset_type result shared =
    if reset_type == 0x01
    then request_boot result shared
    else (err sub_function_not_supported, shared)
