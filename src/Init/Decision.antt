-- ===== src/Init/Decision.antt =====
-- flxc1000-init/src/main.rs: which binary is executed.
use flxc1000_rpi.Prelude.{◌≡◌, inl, inr, ◌↔◌, Bool, true, false, some, Option-cases, ap, arith}
use flxc1000_rpi.Init.{
  Env, Run, app_binary, data_mount, app_mount, is_app_valid, mount_and_exec, after_wait,
  wait_for_mmc_partitions, main,
}
use mathlib.Core.Option
use flxc1000_rpi.Init.Wait.{
  IsClock, Found, wait_for_mmc_partitions-ends, wait_for_mmc_partitions_iff,
}

module _ (env : Env) where
  -- All that has to hold before the application is executed.
  abbrev pub IsReady : Type 0
  IsReady =
      Found env
      × (env.mount_ok data_mount ≡ true)
      × (env.mount_ok app_mount ≡ true)
      × (is_app_valid env ≡ true)
      × (env.app_exists ≡ true)

  mount_and_exec_iff : ((mount_and_exec env).binary ≡ app_binary) ↔ (
      (env.mount_ok data_mount ≡ true)
      × (env.mount_ok app_mount ≡ true)
      × (is_app_valid env ≡ true)
      × (env.app_exists ≡ true))
  unfolding mount_and_exec
  mount_and_exec_iff = ground arith

  main-after :
      (appeared : Bool)
      → wait_for_mmc_partitions env ≡ some appeared
      → main env ≡ some (after_wait env appeared)
  unfolding main
  main-after appeared e = ap (Option.map (after_wait env)) e

  -- Where the clock does not run backwards and every sleep has the given length at least,
  -- process 1 always comes to the execution of a binary, and that is the application exactly when
  -- both partitions appeared before the deadline, both file systems could be mounted, the boot
  -- state is `app_valid` up to blanks around it, and the application is there.
  pub main-decides :
      IsClock env → (run : Run) × (main env ≡ some run) × ((run.binary ≡ app_binary) ↔ IsReady)
  main-decides c = elim (Option-cases (wait_for_mmc_partitions env)) [
    | inl none_left ↦ absurd (wait_for_mmc_partitions-ends env c none_left)
    | inr (true, e) ↦
        let found = (wait_for_mmc_partitions_iff env c).0 e in
        let (to, from) = mount_and_exec_iff in
        (
          mount_and_exec env,
          main-after true e,
          (
            λ b. let (d, a, v, x) = to b in (found, d, a, v, x),
            λ (f, d, a, v, x). from (d, a, v, x),
          ),
        )
    | inr (false, e) ↦ (
      after_wait env false,
      main-after false e,
      (
        λ b. absurd (cc b),
        λ (found, d, a, v, x). absurd (cc ((wait_for_mmc_partitions_iff env c).1 found, e)),
      ),
    )
  ]
