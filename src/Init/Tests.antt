-- ===== src/Init/Tests.antt =====
-- The start of the Raspberry Pi on concrete cards.
use flxc1000_rpi.Prelude.{ℕ, ◌*◌, ◌≡◌, ◌↔◌, ◌⊎◌, refl, none, true, some, ◌∷◌, [], leb, Bool, arith}
use flxc1000_rpi.Init.{
  Env, Run, Partition, app_binary, boot_binary, poll_interval, wait_for_mmc_partitions, main,
}
use flxc1000_rpi.Init
use flxc1000_rpi.Init.Wait.{IsClock}
use flxc1000_rpi.Init.Decision.{IsReady}
use flxc1000_rpi.Text.{text_eq}
use flxc1000_rpi.Exec.{
  Exec, replaced, exited, asleep, exec_binary, exec_of, exec_or, has_nul, path_of, boot_path,
  do_hard_reset, do_soft_reset, main-stays,
}

abbrev later : ℕ → Partition → Bool
later round p = leb 2 round

-- Both partitions appear in the third round; the file holds `app_valid` and a line end.
abbrev good_card : Env
good_card = record {
  clock = λ k. k * poll_interval;
  exists_in = later;
  mount_ok = λ m. true;
  boot_state = some (b'a' ∷ b'p' ∷ b'p' ∷ b'_' ∷ b'v' ∷ b'a' ∷ b'l' ∷ b'i' ∷ b'd' ∷ 10 ∷ []);
  app_exists = true;
}

good_card-IsClock : IsClock good_card
good_card-IsClock = record { starts = omega arith; sleeps = λ k. omega arith }

-- `execve` fails for the application.
abbrev boot_only : Exec → Bool
boot_only e = text_eq e.path boot_path

main-stays_example :
    (run : Run) × (main good_card ≡ some run)
    × ((run.binary ≡ app_binary) ↔ IsReady good_card)
    × ((exec_binary boot_only (path_of run.binary) ≡ replaced (exec_of (path_of run.binary)))
        ⊎ (exec_binary boot_only (path_of run.binary) ≡ asleep))
main-stays_example = main-stays good_card boot_only good_card-IsClock

hard-reset : do_hard_reset boot_only ≡ exited 1
unfolding do_hard_reset exec_or has_nul
hard-reset = refl

soft-reset : do_soft_reset boot_only none ≡ replaced (exec_of boot_path)
unfolding do_soft_reset exec_or has_nul
soft-reset = refl

abbrev app_run : Run
app_run = record {
  mounts = Init.proc ∷ Init.sys ∷ Init.dev ∷ Init.data_mount ∷ Init.app_mount ∷ [];
  binary = app_binary;
}

good_card-main : main good_card ≡ some app_run
unfolding main wait_for_mmc_partitions flxc1000_rpi.Init.mount_and_exec
    flxc1000_rpi.Init.is_app_valid
good_card-main = refl
