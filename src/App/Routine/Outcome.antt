-- ===== src/App/Routine/Outcome.antt =====
-- flxc1000-app/src/main.rs: how the self test ends.
use flxc1000_rpi.Prelude.{
  none, Option, Bool, ◌∙◌, some, Bool-cases, inl, inr, arith, false, ◌==◌, ℕ, zero, suc, ◌≡◌, refl,
  true, List, [], ◌∷◌,
}
use flxc1000_rpi.Ace.{ok}
use flxc1000_rpi.App.{SharedState}
use flxc1000_rpi.App.Leds.Backing.{FreeOn}
use flxc1000_rpi.App.Leds.{
  PinEffect, slept, Gpio, indices, set_led, set_leds, all_leds_off, light_led, drop_pins,
}
use flxc1000_rpi.App.Leds.Pins.{
  is_held, is_lit, is_one, Owns, light_led-Owns, set_leds-is_held, all_leds_off-is_lit,
}
use flxc1000_rpi.App.Handler.{read_did}
use flxc1000_rpi.App.Routine.{
  answer, begin_read_did, Cascade, starting, at_round, finished, advance, advance_at, System,
  routine_control, finish_control, routine_running, routine_completed, routine_aborted, led_count,
}

-- A thread that nothing interferes with, for some steps.
unfoldable pub run_alone : ℕ → Cascade → SharedState → Cascade × SharedState
unfolding advance
run_alone zero t s = (t, s)
run_alone (suc n) t s = let (t', s') = advance t s in run_alone n t' s'

-- The pins that the test holds after some rounds, and the log.
unfoldable lit : Option Gpio → ℕ → List PinEffect → List ℕ × List PinEffect
lit board zero log = ([], all_leds_off board log)
lit board (suc n) log = let (active, leds) = lit board n log in light_led board n active leds

lit-Owns :
    (gpio : Gpio) (n : ℕ) (log : List PinEffect)
    → ((p : ℕ) → is_held p log ≡ false)
    → Owns (lit (some gpio) n log).0 (lit (some gpio) n log).1
unfolding lit all_leds_off
lit-Owns gpio zero log unheld =
    λ p. ground (arith, set_leds-is_held gpio indices false p log, unheld p)
lit-Owns gpio (suc n) log unheld =
    let (active, leds) = lit (some gpio) n log in
    light_led-Owns gpio n active leds (lit-Owns gpio n log unheld)

-- With no GPIO the pins are as they were.
lit-none :
    (pin n : ℕ) (log : List PinEffect)
    → ((lit none n log).0 ≡ [])
      × (is_lit pin (lit none n log).1 ≡ is_lit pin log)
      × (is_held pin (lit none n log).1 ≡ is_held pin log)
unfolding lit light_led all_leds_off set_leds set_led is_lit is_held
lit-none pin zero log = (refl, refl, refl)
lit-none pin (suc n) log = lit-none pin n log

-- Dark where there is a GPIO, and as before where there is none.
abbrev pub lit_behind : Option Gpio → Bool → Bool
lit_behind none before = before
lit_behind (some gpio) before = false

cascade-is_lit :
    (board : Option Gpio) (pin : ℕ) (log : List PinEffect)
    → ((p : ℕ) → is_held p log ≡ false)
    → FreeOn board pin
    → is_one pin indices ≡ true
    → let (active, leds) = lit board 5 log in
      let off = all_leds_off board (drop_pins active (slept 500 ∷ leds)) in
      (is_lit pin off ≡ lit_behind board (is_lit pin log)) × (is_held pin off ≡ false)
unfolding is_held is_lit
cascade-is_lit none pin log unheld free led =
    let (empty, kept, still) = lit-none pin 5 log in
    rw empty (unfold all_leds_off set_leds set_led drop_pins in (kept, still ∙ unheld pin))
cascade-is_lit (some gpio) pin log unheld free led =
    let (active, leds) = lit (some gpio) 5 log in
    all_leds_off-is_lit gpio pin active (slept 500 ∷ leds) free led (lit-Owns gpio 5 log unheld)

-- Left alone, a self test that starts where no test holds a pin ends after its seven steps and
-- reports that it is completed; it has changed nothing but the status and the pins. The pin of an LED
-- that the GPIO gives whenever no test holds it is dark then and held no more; with no GPIO, where
-- the test is only simulated, it is as it was.
pub run_alone-completes :
    (s : SharedState) (pin : ℕ)
    → ((p : ℕ) → is_held p s.leds ≡ false)
    → FreeOn s.gpio pin
    → is_one pin indices ≡ true
    → let (last, s') = run_alone 7 starting s in
      (last ≡ finished)
      × (s' ≡ record s { routine_status = routine_completed; leds = s'.leds })
      × (is_lit pin s'.leds ≡ lit_behind s.gpio (is_lit pin s.leds))
      × (is_held pin s'.leds ≡ false)
unfolding run_alone advance lit
run_alone-completes s pin unheld free led =
    let (dark, given_back) = cascade-is_lit s.gpio pin s.leds unheld free led in
    (refl, refl, dark, given_back)

abbrev pub after_stop : System → System
after_stop y = finish_control (routine_control 0x1001 0x02 y).1

-- A stop of a running test that comes behind the last check of its thread is answered with the
-- status of an abort, and yet the next step of the thread reports the test as completed.
pub routine_control-overwritten :
    (y : System) (active : List ℕ) (others : List Cascade)
    → y.shared.routine_status ≡ routine_running
    → y.threads ≡ at_round led_count active ∷ others
    → ((routine_control 0x1001 0x02 y).0 ≡ ok (routine_aborted ∷ []))
      × ((after_stop y).shared.routine_status ≡ routine_aborted)
      × ((advance_at 0 (after_stop y).threads (after_stop y).shared).1.routine_status
          ≡ routine_completed)
unfolding routine_control finish_control advance_at advance
routine_control-overwritten y active others running last = rw (running, last) (refl, refl, refl)

-- The thread at a place makes its step.
abbrev pub after_step : ℕ → System → System
after_step k y = record y {
  threads = (advance_at k y.threads y.shared).0;
  shared = (advance_at k y.threads y.shared).1;
}

abbrev pub after_start : System → System
after_start y = finish_control (routine_control 0x1001 0x01 y).1

read_did-other : (did : ℕ) (s : SharedState) → (did == 0xF200) ≡ false → (read_did did s).1 ≡ s
unfolding read_did
read_did-other did s other = ground arith

-- With no step of a thread in between, the two parts of a read are the hook as a whole.
pub begin_read_did-finish :
    (did : ℕ) (s : SharedState) (ts : List Cascade)
    → let y : System = record { shared = s; threads = ts; pending = answer } in
      finish_control (begin_read_did did y) ≡ record y { shared = (read_did did s).1 }
unfolding finish_control begin_read_did
begin_read_did-finish did s ts = elim (Bool-cases (did == 0xF200)) [
  | inl power ↦ let e : did ≡ 0xF200 = ground arith in rw e (unfold read_did in refl)
  | inr other ↦ rw (other, read_did-other did s other) refl
]
