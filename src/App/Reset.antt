-- ===== src/App/Reset.antt =====
-- flxc1000-app/src/main.rs and flxc1000-init/src/main.rs: a granted reset writes the boot
-- state, and a start that finds it so executes the bootloader.
use flxc1000_rpi.Prelude.{◌≡◌, refl, ℕ, false, some, arith}
use flxc1000_rpi.Ace.{ok}
use flxc1000_rpi.App.{SharedState, reset_hard}
use flxc1000_rpi.App.Handler.{WriteResult, boot_requested, ecu_reset}
use flxc1000_rpi.Init.{Env, Run, Binary, app_binary, boot_binary, main, is_app_valid}
use flxc1000_rpi.Init.Wait.{IsClock}
use flxc1000_rpi.Init.Decision.{main-decides}

-- A reset that is granted wrote the boot state, and the main loop will restart the system.
ecu_reset-granted :
    (reset_type : ℕ) (result : WriteResult) (shared : SharedState)
    → (ecu_reset reset_type result shared).0 ≡ ok tt
    → ((ecu_reset reset_type result shared).1.boot_state ≡ some boot_requested)
      × ((ecu_reset reset_type result shared).1.pending_reset ≡ reset_hard)
unfolding ecu_reset
ecu_reset-granted reset_type result shared granted = ground arith

boot_requested-invalid :
    (env : Env) → env.boot_state ≡ some boot_requested → is_app_valid env ≡ false
unfolding is_app_valid
boot_requested-invalid env e = rw e refl

other_binary : (b : Binary) → (b ≡ app_binary → ⊥) → b ≡ boot_binary
other_binary app_binary h = absurd (h refl)
other_binary boot_binary h = refl

-- A start that finds the request for the bootloader executes it.
pub boot_requested-main :
    (env : Env)
    → env.boot_state ≡ some boot_requested
    → IsClock env
    → (run : Run) × (main env ≡ some run) × (run.binary ≡ boot_binary)
boot_requested-main env kept clock =
    let (run, e, decided) = main-decides env clock in
    let invalid = boot_requested-invalid env kept in
    (run, e, other_binary run.binary λ b. let (f, d, a, v, x) = decided.0 b in cc (invalid, v))
