-- ===== src/App/Routine/Runs.antt =====
-- flxc1000-app/src/main.rs: the self test under any interleaving of its threads, the hooks and the
-- main loop.
use flxc1000_rpi.Prelude.{
  sym, ◌∙◌, ◌++◌, ℕ, zero, suc, ◌≡◌, refl, ◌||◌, ◌⊎◌, inl, inr, Bool, true, false, List, [], ◌∷◌,
  arith, Option,
}
use flxc1000_rpi.App.{SharedState, initial_state}
use flxc1000_rpi.App.Leds.{Gpio}
use flxc1000_rpi.App.Routine.{
  Cascade, starting, at_round, finished, advance, advance_at, Next, answer, spawn_then_answer,
  abort_then_answer, switch_off_then_answer, begin_read_did, System, routine_control, finish,
  finish_control, routine_running,
}

-- What the main loop and the other hooks leave alone.
abbrev pub SameTest : SharedState → SharedState → Type 0
SameTest s t = (t.routine_status ≡ s.routine_status) × (t.gpio ≡ s.gpio) × (t.leds ≡ s.leds)

-- The steps of the system: a call of a hook begins when the one before has ended, and `serves` is
-- all else that the main loop does.
pub data Step : System → System → Type 0 where
  calls :
      {y : System} (routine_id sub_function : ℕ)
      → y.pending ≡ answer
      → Step y (routine_control routine_id sub_function y).1
  reads : {y : System} (did : ℕ) → y.pending ≡ answer → Step y (begin_read_did did y)
  ends : {y : System} → Step y (finish_control y)
  serves :
      {y : System} (shared : SharedState)
      → y.pending ≡ answer
      → SameTest y.shared shared
      → Step y (record y { shared = shared })
  advances :
      {y : System} (k : ℕ)
      → Step y (record y {
        threads = (advance_at k y.threads y.shared).0;
        shared = (advance_at k y.threads y.shared).1;
      })

abbrev start : Option Gpio → Option (List ℕ) → System
start gpio boot_state = record {
  shared = initial_state gpio boot_state;
  threads = [];
  pending = answer;
}

pub data Reach : System → Type 0 where
  begin : (gpio : Option Gpio) (boot_state : Option (List ℕ)) → Reach (start gpio boot_state)
  after : {y z : System} → Reach y → Step y z → Reach z

-- A thread that has begun and not ended.
abbrev pub is_active : Cascade → Bool
is_active starting = false
is_active (at_round i active) = true
is_active finished = false

unfoldable pub any_active : List Cascade → Bool
any_active [] = false
any_active (t ∷ ts) = is_active t || any_active ts

-- Where a step ends with the status of a running test, a thread is active then, or none was
-- before and the status was already that one.
abbrev Keeps : Bool → SharedState → Bool → SharedState → Type 0
Keeps before s later s' =
    s'.routine_status ≡ routine_running
    → (later ≡ true) ⊎ ((before ≡ false) × (s.routine_status ≡ routine_running))

advance-Keeps :
    (t : Cascade) (s : SharedState)
    → Keeps (is_active t) s (is_active (advance t s).0) (advance t s).1
unfolding advance
advance-Keeps starting s running = inl refl
advance-Keeps (at_round i active) s running = ground arith
advance-Keeps finished s running = inr (refl, running)

advance_at-Keeps :
    (k : ℕ) (ts : List Cascade) (s : SharedState)
    → Keeps (any_active ts) s (any_active (advance_at k ts s).0) (advance_at k ts s).1
unfolding advance_at any_active
advance_at-Keeps zero [] s running = inr (refl, running)
advance_at-Keeps (suc k) [] s running = inr (refl, running)
advance_at-Keeps zero (t ∷ ts) s running = ground (arith, advance-Keeps t s running)
advance_at-Keeps (suc k) (t ∷ ts) s running = ground (arith, advance_at-Keeps k ts s running)

abbrev IsLive : System → Type 0
IsLive y = y.shared.routine_status ≡ routine_running → any_active y.threads ≡ true

any_active-append :
    (ts : List Cascade) (t : Cascade) → any_active ts ≡ true → any_active (ts ++ t ∷ []) ≡ true
unfolding any_active
any_active-append [] t h = cc
any_active-append (u ∷ ts) t h = ground (arith, any_active-append ts t)

finish-IsLive : (next : Next) (y : System) → IsLive y → IsLive (finish next y)
unfolding any_active
finish-IsLive answer y live running = live running
finish-IsLive spawn_then_answer y live running = any_active-append y.threads starting (live running)
finish-IsLive switch_off_then_answer y live running = live running
finish-IsLive abort_then_answer y live running = absurd (omega (arith, running))

Step-IsLive : {y z : System} → Step y z → IsLive y → IsLive z
unfolding routine_control begin_read_did finish_control
Step-IsLive (calls routine_id sub_function idle) live = live
Step-IsLive {y = y} (reads did idle) live = λ running. ground (arith, live)
Step-IsLive (serves shared idle same) live = λ running. live (sym same.0 ∙ running)
Step-IsLive {y = y} ends live = finish-IsLive y.pending y live
Step-IsLive {y = y} (advances k) live =
    λ running. ground (arith, advance_at-Keeps k y.threads y.shared running, live)

-- However the threads of the self test, the hooks and the main loop interleave, the status is that
-- of a running test only while a thread is between its first step and its last one: the test
-- never stays `running` with nothing left to run.
pub Reach-any_active :
    {y : System} → Reach y → y.shared.routine_status ≡ routine_running → any_active y.threads ≡ true
Reach-any_active (begin gpio boot_state) running = absurd (omega (arith, running))
Reach-any_active (after reached step) running = Step-IsLive step (Reach-any_active reached) running
