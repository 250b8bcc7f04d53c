-- ===== src/App/Vin.antt =====
-- flxc1000-app/src/main.rs: the VIN that the application keeps, over calls of its hooks.
use flxc1000_rpi.Prelude.{
  ℕ, ◌≡◌, ◌≢◌, ◌⊎◌, refl, inl, inr, ◌==◌, Bool-cases, List, length, Star, Star-keeps, arith,
}
use flxc1000_rpi.Ace.{ok, err, incorrect_message_length_or_invalid_format}
use flxc1000_rpi.App.Leds.{PinEffect}
use flxc1000_rpi.App.{SharedState}
use flxc1000_rpi.App.Handler.{WriteResult, written, failed, read_did, write_did, ecu_reset}

-- A call of a hook that does not write the VIN, or a change that the self test makes.
pub data Elsewhere : SharedState → SharedState → Type 0 where
  reads_any : (did : ℕ) (s : SharedState) → Elsewhere s (read_did did s).1
  writes_other :
      (did : ℕ) (bytes : List ℕ) (s : SharedState)
      → did ≢ 0xF190
      → Elsewhere s (write_did did bytes s).1
  tests_leds :
      (status : ℕ) (leds : List PinEffect) (s : SharedState)
      → Elsewhere s (record s { routine_status = status; leds = leds })
  resets_any :
      (reset_type : ℕ) (result : WriteResult) (s : SharedState)
      → Elsewhere s (ecu_reset reset_type result s).1

Elsewhere-vin : {s t : SharedState} → Elsewhere s t → t.vin ≡ s.vin
unfolding read_did write_did ecu_reset
Elsewhere-vin (reads_any did s) = ground arith
Elsewhere-vin (writes_other did bytes s other) = ground arith
Elsewhere-vin (tests_leds status leds s) = refl
Elsewhere-vin (resets_any reset_type written s) = ground arith
Elsewhere-vin (resets_any reset_type (failed left) s) = ground arith

-- A VIN of 17 bytes is accepted and is what any later read gives, whatever calls of the hooks that
-- do not write the VIN come between; one of another length is refused, and a later read gives the
-- VIN of before.
pub read_did-write_did :
    (bytes : List ℕ) (s : SharedState) {t : SharedState}
    → Star Elsewhere (write_did 0xF190 bytes s).1 t
    → ((length bytes ≡ 17)
        × ((write_did 0xF190 bytes s).0 ≡ ok tt)
        × ((read_did 0xF190 t).0 ≡ ok bytes))
      ⊎ ((length bytes ≢ 17)
          × ((write_did 0xF190 bytes s).0 ≡ err incorrect_message_length_or_invalid_format)
          × ((read_did 0xF190 t).0 ≡ ok s.vin))
unfolding read_did write_did
read_did-write_did bytes s {t} between =
    let kept = Star-keeps (λ (x : SharedState). x.vin) (λ a b. Elsewhere-vin) between in
    elim (Bool-cases (length bytes == 17)) [
      | inl fits ↦ inl (ground arith, rw fits refl, ground arith)
      | inr other ↦ inr (ground arith, rw other refl, ground arith)
    ]
