-- ===== src/Init.antt =====
-- flxc1000-init/src/main.rs: process 1 of the Raspberry Pi, which mounts the card and executes the
-- application or the bootloader. The log lines are left out.
pub mod Wait
pub mod Decision
mod Tests
use flxc1000_rpi.Prelude.{
  ℕ, zero, suc, ◌+◌, ltb, if◌then◌else◌, Bool, true, false, not, ◌&&◌, Option, none, some, List, [],
  ◌∷◌, ◌++◌,
}
use flxc1000_rpi.Text.{trim, text_eq}
use flxc1000_rpi.Uds.Session.{from_millis}
use mathlib.Core.Option

-- /dev/mmcblk0p3 and /dev/mmcblk0p2.
pub data Partition : Type 0 where
  data_partition app_partition : Partition

-- /app/flxc1000-app and /boot/flxc1000-boot.
pub data Binary : Type 0 where
  app_binary boot_binary : Binary

-- /proc, /sys, /dev, /data and /app.
pub data MountPoint : Type 0 where
  proc sys dev data_mount app_mount : MountPoint

-- The surroundings: the readings of the clock in their order, whether a partition is there in each
-- round of the wait, whether a file system can be mounted, the contents of /data/boot_state if it
-- can be read, and whether the application's binary is there.
pub record Env : Type 0 where
  pub clock : ℕ → ℕ
  pub exists_in : ℕ → Partition → Bool
  pub mount_ok : MountPoint → Bool
  pub boot_state : Option (List ℕ)
  pub app_exists : Bool

-- What process 1 does: the file systems that it tries to mount, in this order, and the binary that
-- it executes at last.
pub record Run : Type 0 where
  pub mounts : List MountPoint
  pub binary : Binary

abbrev pub mmc_timeout : ℕ
mmc_timeout = from_millis 10_000

abbrev pub poll_interval : ℕ
poll_interval = from_millis 100

-- The results of `mount_pseudo_fs` are ignored.
abbrev pub mount_pseudo_fs : List MountPoint
mount_pseudo_fs = proc ∷ sys ∷ dev ∷ []

module _ (env : Env) where
  abbrev pub deadline : ℕ
  deadline = env.clock 0 + mmc_timeout

  abbrev pub both_exist : ℕ → Bool
  both_exist round = env.exists_in round app_partition && env.exists_in round data_partition

  -- The `while`, for at most `fuel` rounds; `none` is no value of the code.
  unfoldable pub wait_from : ℕ → ℕ → Option Bool
  wait_from zero round = none
  wait_from (suc fuel) round =
      let rest = wait_from fuel (suc round) in
      if ltb (env.clock (suc round)) deadline
      then (if both_exist round then some true else rest)
      else some false

  -- A round sleeps for 100 ms at least, so the hundred and first finds the deadline passed.
  unfoldable pub wait_for_mmc_partitions : Option Bool
  unfolding wait_from
  wait_for_mmc_partitions = wait_from 101 0

  -- `boot_state == "app_valid"`, where a file that cannot be read is empty.
  unfoldable pub is_app_valid : Bool
  unfolding trim
  is_app_valid =
      text_eq (trim (Option.get_or env.boot_state []))
        (b'a' ∷ b'p' ∷ b'p' ∷ b'_' ∷ b'v' ∷ b'a' ∷ b'l' ∷ b'i' ∷ b'd' ∷ [])

  -- `main` where the partitions appeared.
  unfoldable pub mount_and_exec : Run
  unfolding is_app_valid
  mount_and_exec =
      if not (env.mount_ok data_mount)
      then record { mounts = mount_pseudo_fs ++ data_mount ∷ []; binary = boot_binary }
      else if not (env.mount_ok app_mount)
      then record { mounts = mount_pseudo_fs ++ data_mount ∷ app_mount ∷ []; binary = boot_binary }
      else record {
        mounts = mount_pseudo_fs ++ data_mount ∷ app_mount ∷ [];
        binary = if is_app_valid && env.app_exists then app_binary else boot_binary;
      }

  -- `main` behind the wait.
  abbrev pub after_wait : Bool → Run
  after_wait appeared =
      if not appeared
      then record { mounts = mount_pseudo_fs; binary = boot_binary }
      else mount_and_exec

  -- `exec_binary`, which does not come back, is in `Exec`.
  unfoldable pub main : Option Run
  unfolding wait_for_mmc_partitions mount_and_exec
  main = Option.map after_wait wait_for_mmc_partitions
