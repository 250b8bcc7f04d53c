-- ===== src/App/Routine/Progress.antt =====
-- flxc1000-app/src/main.rs: every thread of the self test comes to its end, whatever happens
-- between its steps.
use flxc1000_rpi.Prelude.{
  ℕ, zero, suc, ◌-◌, ◌≤◌, ◌<◌, ◌≡◌, refl, ap, some, List, [], ◌∷◌, ◌++◌, arith, get_elem?, length,
  length-append,
}
use flxc1000_rpi.App.{SharedState}
use flxc1000_rpi.App.Routine.{
  Cascade, starting, at_round, finished, advance, advance_at, Next, answer, spawn_then_answer,
  abort_then_answer, switch_off_then_answer, begin_read_did, System, routine_control, finish,
  finish_control, led_count,
}
use flxc1000_rpi.App.Routine.Runs.{Step, calls, reads, serves, ends, advances}

-- The steps that a thread has left.
abbrev pub remaining : Cascade → ℕ
remaining starting = 7
remaining (at_round i active) = suc (led_count - i)
remaining finished = 0

advance-remaining : (t : Cascade) (s : SharedState) → remaining (advance t s).0 ≤ remaining t - 1
unfolding advance
advance-remaining starting s = omega arith
advance-remaining (at_round i active) s = ground arith
advance-remaining finished s = omega arith

-- Runs, with the number of the steps that the thread at a place makes in them.
pub data Trace (k : ℕ) (y : System) : ℕ → System → Type 0 where
  here : Trace k y 0 y
  own :
      {n : ℕ} {z : System}
      → Trace k y n z
      → Trace k y (suc n) (record z {
        threads = (advance_at k z.threads z.shared).0;
        shared = (advance_at k z.threads z.shared).1;
      })
  other : {n : ℕ} {z w : System} → Trace k y n z → Step z w → Trace k y n w

-- What the thread at the place `k` has left; nothing where there is none.
unfoldable pub left_at : ℕ → List Cascade → ℕ
left_at k [] = 0
left_at zero (t ∷ ts) = remaining t
left_at (suc k) (t ∷ ts) = left_at k ts

left_at-append :
    (k : ℕ) (ts : List Cascade) (t : Cascade)
    → k < length ts
    → left_at k (ts ++ t ∷ []) ≡ left_at k ts
unfolding left_at
left_at-append k [] t h = absurd (omega arith)
left_at-append zero (u ∷ ts) t h = refl
left_at-append (suc k) (u ∷ ts) t h = left_at-append k ts t (omega arith)

left_at-own :
    (k : ℕ) (ts : List Cascade) (s : SharedState)
    → left_at k (advance_at k ts s).0 ≤ left_at k ts - 1
unfolding left_at advance_at
left_at-own zero [] s = omega arith
left_at-own (suc k) [] s = omega arith
left_at-own zero (t ∷ ts) s = advance-remaining t s
left_at-own (suc k) (t ∷ ts) s = left_at-own k ts s

left_at-other :
    (k j : ℕ) (ts : List Cascade) (s : SharedState) → left_at k (advance_at j ts s).0 ≤ left_at k ts
unfolding left_at advance_at
left_at-other zero zero [] s = omega arith
left_at-other (suc k) zero [] s = omega arith
left_at-other zero (suc j) [] s = omega arith
left_at-other (suc k) (suc j) [] s = omega arith
left_at-other zero zero (t ∷ ts) s = omega (arith, advance-remaining t s)
left_at-other (suc k) zero (t ∷ ts) s = omega arith
left_at-other zero (suc j) (t ∷ ts) s = omega arith
left_at-other (suc k) (suc j) (t ∷ ts) s = left_at-other k j ts s

length-advance_at :
    (j : ℕ) (ts : List Cascade) (s : SharedState) → length (advance_at j ts s).0 ≡ length ts
unfolding advance_at
length-advance_at zero [] s = refl
length-advance_at (suc j) [] s = refl
length-advance_at zero (t ∷ ts) s = refl
length-advance_at (suc j) (t ∷ ts) s = ap suc (length-advance_at j ts s)

-- The thread at `k` stays there, and has no more to do than before.
abbrev Keeps : ℕ → System → System → Type 0
Keeps k y z = (k < length z.threads) × (left_at k z.threads ≤ left_at k y.threads)

finish-Keeps : (k : ℕ) (next : Next) (y : System) → k < length y.threads → Keeps k y (finish next y)
finish-Keeps k answer y h = omega arith
finish-Keeps k spawn_then_answer y h =
    omega (arith, length-append y.threads (starting ∷ []), left_at-append k y.threads starting h)
finish-Keeps k abort_then_answer y h = omega arith
finish-Keeps k switch_off_then_answer y h = omega arith

Step-Keeps : (k : ℕ) {y z : System} → Step y z → k < length y.threads → Keeps k y z
unfolding routine_control begin_read_did finish_control
Step-Keeps k {y = y} (calls routine_id sub_function idle) h = omega arith
Step-Keeps k {y = y} (reads did idle) h = ground arith
Step-Keeps k {y = y} (serves shared idle same) h = omega arith
Step-Keeps k {y = y} ends h = finish-Keeps k y.pending y h
Step-Keeps k {y = y} (advances j) h =
    omega (arith, length-advance_at j y.threads y.shared, left_at-other k j y.threads y.shared)

Trace-left_at :
    (k : ℕ) {y z : System} {n : ℕ}
    → Trace k y n z
    → k < length y.threads
    → (k < length z.threads) × (left_at k z.threads ≤ left_at k y.threads - n)
Trace-left_at k here h = omega arith
Trace-left_at k (own {z = z} trace) h = omega (
  arith,
  Trace-left_at k trace h,
  length-advance_at k z.threads z.shared,
  left_at-own k z.threads z.shared,
)
Trace-left_at k (other trace step) h =
    let (there, left) = Trace-left_at k trace h in omega (arith, Step-Keeps k step there)

left_at-le : (k : ℕ) (ts : List Cascade) → left_at k ts ≤ 7
unfolding left_at
left_at-le k [] = omega arith
left_at-le zero (starting ∷ ts) = omega arith
left_at-le zero (at_round i active ∷ ts) = omega arith
left_at-le zero (finished ∷ ts) = omega arith
left_at-le (suc k) (t ∷ ts) = left_at-le k ts

left_at-finished :
    (k : ℕ) (ts : List Cascade) → k < length ts → left_at k ts ≡ 0 → get_elem? ts k ≡ some finished
unfolding left_at
left_at-finished k [] h e = absurd (omega arith)
left_at-finished zero (starting ∷ ts) h e = absurd (omega arith)
left_at-finished zero (at_round i active ∷ ts) h e = absurd (omega arith)
left_at-finished zero (finished ∷ ts) h e = refl
left_at-finished (suc k) (t ∷ ts) h e = left_at-finished k ts (omega arith) e

-- A thread of the self test that exists is finished after seven steps of its own, whatever the other
-- threads, the hooks and the main loop do between them.
pub Trace-finished :
    (k : ℕ) {y z : System} {n : ℕ}
    → k < length y.threads
    → 7 ≤ n
    → Trace k y n z
    → get_elem? z.threads k ≡ some finished
Trace-finished k {y} {z} h enough trace =
    let (there, left) = Trace-left_at k trace h in
    left_at-finished k z.threads there (omega (arith, left_at-le k y.threads))
