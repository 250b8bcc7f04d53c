-- ===== src/Exec.antt =====
-- How one program executes another in place of itself: `exec_binary` in flxc1000-init/src/main.rs,
-- `do_hard_reset` in flxc1000-app/src/main.rs and flxc1000-boot/src/main.rs, and `do_soft_reset` in
-- the latter. Whether `execve` succeeds is a parameter.
use flxc1000_rpi.Prelude.{
  ◌≡◌, refl, ◌⊎◌, ◌↔◌, inl, inr, Bool-cases, ℕ, ◌==◌, ◌||◌, if◌then◌else◌, Bool, false, Option,
  some, List, [], ◌∷◌,
}
use flxc1000_rpi.Init.{Env, Run, main, Binary, app_binary, boot_binary}
use flxc1000_rpi.Init.Decision.{IsReady, main-decides}
use flxc1000_rpi.Init.Wait.{IsClock}
use mathlib.Core.Option

pub record Exec : Type 0 where
  pub path : List ℕ
  pub argv : List (List ℕ)
  pub env : List (List ℕ)

-- What becomes of the process.
pub data Fate : Type 0 where
  replaced : Exec → Fate
  exited : ℕ → Fate
  asleep : Fate  -- for ever
  panicked : Fate

-- PATH=/bin:/sbin
abbrev pub path_variable : List ℕ
path_variable =
    b'P' ∷ b'A' ∷ b'T' ∷ b'H' ∷ b'=' ∷ b'/' ∷ b'b' ∷ b'i' ∷ b'n' ∷ b':' ∷ b'/' ∷ b's' ∷ b'b' ∷ b'i'
    ∷ b'n' ∷ []

-- HOME=/
abbrev pub home_variable : List ℕ
home_variable = b'H' ∷ b'O' ∷ b'M' ∷ b'E' ∷ b'=' ∷ b'/' ∷ []

abbrev pub init_path : List ℕ
init_path = b'/' ∷ b'i' ∷ b'n' ∷ b'i' ∷ b't' ∷ []

abbrev pub boot_path : List ℕ
boot_path =
    b'/' ∷ b'b' ∷ b'o' ∷ b'o' ∷ b't' ∷ b'/' ∷ b'f' ∷ b'l' ∷ b'x' ∷ b'c' ∷ b'1' ∷ b'0' ∷ b'0' ∷ b'0'
    ∷ b'-' ∷ b'b' ∷ b'o' ∷ b'o' ∷ b't' ∷ []

abbrev pub app_path : List ℕ
app_path =
    b'/' ∷ b'a' ∷ b'p' ∷ b'p' ∷ b'/' ∷ b'f' ∷ b'l' ∷ b'x' ∷ b'c' ∷ b'1' ∷ b'0' ∷ b'0' ∷ b'0' ∷ b'-'
    ∷ b'a' ∷ b'p' ∷ b'p' ∷ []

unfoldable pub has_nul : List ℕ → Bool
has_nul [] = false
has_nul (b ∷ bs) = b == 0 || has_nul bs

-- The path is the only argument.
abbrev pub exec_of : List ℕ → Exec
exec_of path = record { path = path; argv = path ∷ []; env = path_variable ∷ home_variable ∷ [] }

-- `CString::new` refuses a path with a zero byte. Behind a failed `execve` the program does what
-- it does there.
unfoldable pub exec_or : Fate → (Exec → Bool) → List ℕ → Fate
unfolding has_nul
exec_or otherwise exec_ok path =
    if has_nul path
    then panicked
    else if exec_ok (exec_of path)
    then replaced (exec_of path)
    else otherwise

unfoldable pub exec_binary : (Exec → Bool) → List ℕ → Fate
unfolding exec_or
exec_binary exec_ok path = exec_or asleep exec_ok path

unfoldable pub do_hard_reset : (Exec → Bool) → Fate
unfolding exec_or
do_hard_reset exec_ok = exec_or (exited 1) exec_ok init_path

-- The path of the running binary, if it can be told.
unfoldable pub do_soft_reset : (Exec → Bool) → Option (List ℕ) → Fate
unfolding exec_or
do_soft_reset exec_ok current_exe = exec_or (exited 1) exec_ok (Option.get_or current_exe boot_path)

abbrev pub path_of : Binary → List ℕ
path_of app_binary = app_path
path_of boot_binary = boot_path

-- Process 1 goes on as the binary, or it sleeps for ever.
exec_binary-stays :
    (exec_ok : Exec → Bool) (binary : Binary)
    → (exec_binary exec_ok (path_of binary) ≡ replaced (exec_of (path_of binary)))
      ⊎ (exec_binary exec_ok (path_of binary) ≡ asleep)
unfolding exec_binary exec_or has_nul
exec_binary-stays exec_ok app_binary = elim (Bool-cases (exec_ok (exec_of app_path))) [
  | inl succeeds ↦ inl (rw succeeds refl)
  | inr fails ↦ inr (rw fails refl)
]
exec_binary-stays exec_ok boot_binary = elim (Bool-cases (exec_ok (exec_of boot_path))) [
  | inl succeeds ↦ inl (rw succeeds refl)
  | inr fails ↦ inr (rw fails refl)
]

-- Where the clock does not run backwards and every sleep has the given length at least, process 1
-- always comes to the execution of a binary. That is the application exactly when both partitions
-- appeared before the deadline, both file systems could be mounted, the boot state is `app_valid`
-- up to blanks around it, and the application is there. The process never ends: it goes on as that
-- binary, with its path as the only argument and the two variables, or sleeps for ever.
pub main-stays :
    (env : Env) (exec_ok : Exec → Bool)
    → IsClock env
    → (run : Run) × (main env ≡ some run)
      × ((run.binary ≡ app_binary) ↔ IsReady env)
      × ((exec_binary exec_ok (path_of run.binary) ≡ replaced (exec_of (path_of run.binary)))
          ⊎ (exec_binary exec_ok (path_of run.binary) ≡ asleep))
main-stays env exec_ok clock =
    let (run, e, decided) = main-decides env clock in
    (run, e, decided, exec_binary-stays exec_ok run.binary)
