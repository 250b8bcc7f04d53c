-- ===== src/App/Routine/Tests.antt =====
-- The self test on concrete schedules.
use flxc1000_rpi.App.Routine.Progress.{Trace, here, own, other, Trace-finished}
use flxc1000_rpi.Prelude.{
  ◌⊎◌, List, ℕ, not, false, get_elem?, ◌≡◌, refl, true, some, none, [], ◌∷◌, arith,
}
use flxc1000_rpi.Ace.{ok}
use flxc1000_rpi.App.Leds.{PinEffect, light_led, boot_blink, Gpio, set_high, all_leds_off, indices}
use flxc1000_rpi.App.Leds.Pins.{is_lit, is_held, is_one}
use flxc1000_rpi.App.{SharedState, initial_state}
use flxc1000_rpi.App.Leds.Backing.{FreeOn}
use flxc1000_rpi.App.Routine.Lights.{any_took, Reach-is_lit}
use flxc1000_rpi.App.Routine.{
  switch_off_then_answer, at_round, starting, finished, advance_at, System, answer, routine_control,
  finish_control, routine_running, routine_completed, routine_aborted, led_count,
}
use flxc1000_rpi.App.Routine.Runs.{
  Reach, begin, after, calls, ends, advances, any_active, Reach-any_active,
}
use flxc1000_rpi.App.Routine.Outcome.{
  run_alone, run_alone-completes, lit_behind, after_stop, routine_control-overwritten,
}

abbrev fresh : SharedState
fresh = initial_state none none

-- The test is started, and its thread takes its first step.
abbrev running_test : System
running_test = record {
  shared = record fresh { routine_status = routine_running; leds = all_leds_off none fresh.leds };
  threads = at_round 0 [] ∷ [];
  pending = answer;
}

running_test-Reach : Reach running_test
unfolding routine_control finish_control advance_at
running_test-Reach =
    after (after (after (begin none none) (calls 0x1001 0x01 refl)) ends) (advances 0)

Reach-any_active_example : any_active (at_round 0 [] ∷ []) ≡ true
Reach-any_active_example = Reach-any_active running_test-Reach refl

abbrev late_test : System
late_test = record {
  shared = record fresh { routine_status = routine_running };
  threads = at_round led_count [] ∷ [];
  pending = answer;
}

routine_control-overwritten_example :
    ((routine_control 0x1001 0x02 late_test).0 ≡ ok (routine_aborted ∷ []))
    × ((after_stop late_test).shared.routine_status ≡ routine_aborted)
    × ((advance_at 0 (after_stop late_test).threads (after_stop late_test).shared).1.routine_status
        ≡ routine_completed)
routine_control-overwritten_example = routine_control-overwritten late_test [] [] refl refl

abbrev just_started : System
just_started = record { shared = fresh; threads = starting ∷ []; pending = answer }

-- The thread makes seven steps, and the hook is called between the second and the third.
abbrev own_step : System → System
own_step y = record y {
  threads = (advance_at 0 y.threads y.shared).0;
  shared = (advance_at 0 y.threads y.shared).1;
}

abbrev called : System
called = (routine_control 0x1001 0x03 (own_step (own_step just_started))).1

abbrev after_seven : System
after_seven = own_step (own_step (own_step (own_step (own_step called))))

seven_steps : Trace 0 just_started 7 after_seven
seven_steps = own (own (own (own (own (other (own (own here)) (calls 0x1001 0x03 refl))))))

Trace-finished_example : get_elem? after_seven.threads 0 ≡ some finished
Trace-finished_example = Trace-finished 0 (omega arith) (omega arith) seven_steps

-- A board that gives a pin where no test holds it, and no PWM; two LEDs are lit.
abbrev board : Gpio
board = record { get_ok = λ log pin. not (is_held pin log); pwm_ok = λ log pin. false }

board-FreeOn13 : FreeOn (some board) 13
board-FreeOn13 log unheld = rw unheld refl

abbrev before_test : SharedState
before_test = record fresh { gpio = some board; leds = set_high 13 ∷ set_high 5 ∷ [] }

before_test-is_held : (p : ℕ) → is_held p before_test.leds ≡ false
unfolding is_held
before_test-is_held p = refl

third : is_one 13 indices ≡ true
unfolding is_one
third = refl

run_alone-completes_example :
    let (last, s') = run_alone 7 starting before_test in
    (last ≡ finished)
    × (s' ≡ record before_test { routine_status = routine_completed; leds = s'.leds })
    × (is_lit 13 s'.leds ≡ lit_behind (some board) (is_lit 13 before_test.leds))
    × (is_held 13 s'.leds ≡ false)
run_alone-completes_example =
    run_alone-completes before_test 13 before_test-is_held board-FreeOn13 third

-- On that board the test is started, and its thread lights the first LED.
abbrev first_led : List ℕ × List PinEffect
first_led = light_led (some board) 0 [] (all_leds_off (some board) (boot_blink (some board) []))

abbrev one_lit : System
one_lit = record {
  shared = record (initial_state (some board) none) {
    routine_status = routine_running;
    leds = first_led.1;
  };
  threads = at_round 1 first_led.0 ∷ [];
  pending = answer;
}

one_lit-Reach : Reach one_lit
unfolding routine_control finish_control advance_at
one_lit-Reach =
    after
      (after (after (after (begin (some board) none) (calls 0x1001 0x01 refl)) ends) (advances 0))
      (advances 0)

board-FreeOn : FreeOn (some board) 5
board-FreeOn log unheld = rw unheld refl

first-lit : is_lit 5 one_lit.shared.leds ≡ true
unfolding is_lit is_held light_led all_leds_off boot_blink
first-lit = refl

fifth : is_one 5 indices ≡ true
unfolding is_one
fifth = refl

Reach-is_lit_example :
    ((is_held 5 one_lit.shared.leds ≡ true) × (any_took 5 one_lit.threads ≡ true))
    ⊎ ((◌≡◌ {A = ℕ} 5 5) × (one_lit.pending ≡ switch_off_then_answer))
Reach-is_lit_example = Reach-is_lit 5 fifth one_lit-Reach board-FreeOn first-lit
