-- ===== src/App/Routine.antt =====
-- flxc1000-app/src/main.rs: the self test, which runs on threads of its own, the hook that
-- starts, stops and reports it, and the hook that blinks with an LED of it.
pub mod Runs
pub mod Outcome
pub mod Progress
pub mod Lights
mod Tests
use flxc1000_rpi.Prelude.{
  ℕ, zero, suc, ◌+◌, ◌==◌, ltb, if◌then◌else◌, Bool, true, false, not, ◌&&◌, List, [], ◌∷◌, ◌++◌,
}
use flxc1000_rpi.Ace.{BuiltinNrc, request_out_of_range, request_sequence_error, Result, ok, err}
use flxc1000_rpi.App.{SharedState}
use flxc1000_rpi.App.Leds.{set_led, all_leds_off, light_led, drop_pins, slept}

abbrev pub routine_running : ℕ
routine_running = 0x01

abbrev pub routine_completed : ℕ
routine_completed = 0x02

abbrev pub routine_aborted : ℕ
routine_aborted = 0x03

-- The number of `LED_PINS`.
abbrev pub led_count : ℕ
led_count = 5

-- Where a thread that runs `led_cascade_test` stands: before its first line, before round `i` of
-- the loop (behind the loop for `i = 5`) with the pins that it holds, or at its end.
pub data Cascade : Type 0 where
  starting : Cascade
  at_round : ℕ → List ℕ → Cascade
  finished : Cascade

-- The thread up to its next access of `routine_status`. In each step it accesses that once.
unfoldable pub advance : Cascade → SharedState → Cascade × SharedState
advance starting s = (
  at_round 0 [],
  record s { routine_status = routine_running; leds = all_leds_off s.gpio s.leds },
)
advance (at_round i active) s =
    if ltb i led_count
    then (if s.routine_status == routine_aborted
        then (finished, record s { leds = all_leds_off s.gpio (drop_pins active s.leds) })
        else let (active', leds') = light_led s.gpio i active s.leds in
          (at_round (i + 1) active', record s { leds = leds' }))
    else (
      finished,
      record s {
        routine_status = routine_completed;
        leds = all_leds_off s.gpio (drop_pins active (slept 500 ∷ s.leds));
      },
    )
advance finished s = (finished, s)

-- What is left of a call of a hook. After its one load of the status `routine_control` answers, and
-- it may first spawn a thread or store the status; `read_did` for 0xF200 answers after it switched
-- the first LED off.
pub data Next : Type 0 where
  answer : Next
  spawn_then_answer : Next
  abort_then_answer : Next
  switch_off_then_answer : Next

unfoldable pub load_status : ℕ → ℕ → ℕ → Result (List ℕ) × Next
load_status routine_id sub_function status =
    if not (routine_id == 0x1001)
    then (err request_out_of_range, answer)
    else if sub_function == 0x01
    then (if status == routine_running
        then (err request_sequence_error, answer)
        else (ok (routine_running ∷ []), spawn_then_answer))
    else if sub_function == 0x02
    then (if not (status == routine_running)
        then (err request_sequence_error, answer)
        else (ok (routine_aborted ∷ []), abort_then_answer))
    else if sub_function == 0x03
    then (ok (status ∷ []), answer)
    else (err request_out_of_range, answer)

-- The threads, the state that they share with the hook, and the rest of a call of the hook.
pub record System : Type 0 where
  pub shared : SharedState
  pub threads : List Cascade
  pub pending : Next

unfoldable pub routine_control : ℕ → ℕ → System → Result (List ℕ) × System
unfolding load_status
routine_control routine_id sub_function y =
    let (result, next) = load_status routine_id sub_function y.shared.routine_status in
    (result, record y { pending = next })

abbrev pub finish : Next → System → System
finish answer y = y
finish spawn_then_answer y = record y { threads = y.threads ++ starting ∷ []; pending = answer }
finish abort_then_answer y = record y {
  shared = record y.shared { routine_status = routine_aborted };
  pending = answer;
}
finish switch_off_then_answer y = record y {
  shared = record y.shared { leds = set_led y.shared.gpio 0 false y.shared.leds };
  pending = answer;
}

unfoldable pub finish_control : System → System
finish_control y = finish y.pending y

-- `read_did` up to where it switches the first LED off again.
unfoldable pub begin_read_did : ℕ → System → System
begin_read_did did y =
    if did == 0xF200
    then record y {
      shared = record y.shared { leds = set_led y.shared.gpio 0 true y.shared.leds };
      pending = switch_off_then_answer;
    }
    else y

-- One step of the thread at a place of the list.
unfoldable pub advance_at : ℕ → List Cascade → SharedState → List Cascade × SharedState
unfolding advance
advance_at k [] s = ([], s)
advance_at zero (t ∷ ts) s = let (t', s') = advance t s in (t' ∷ ts, s')
advance_at (suc k) (t ∷ ts) s = let (ts', s') = advance_at k ts s in (t ∷ ts', s')
