-- ===== src/App/Leds/Pins.antt =====
-- flxc1000-app/src/main.rs: which pins may be lit and which are held, by the last thing that was
-- done to them. A pin whose handle is dropped counts as lit until it is driven low.
use flxc1000_rpi.Prelude.{
  ◌∙◌, ℕ, ◌≡◌, refl, ◌==◌, if◌then◌else◌, Bool, true, false, ◌||◌, some, List, [], ◌∷◌, ◌++◌,
  get_or, arith,
}
use flxc1000_rpi.App.Leds.{
  PinEffect, set_high, set_low, clear_pwm, acquire, release, set_pwm, slept, Gpio, led_pins,
  set_led, set_leds, light_led, drop_pins, indices, all_leds_off,
}

abbrev pub lights : ℕ → PinEffect → Bool → Bool
lights pin (set_high p) before = if p == pin then true else before
lights pin (set_low p) before = if p == pin then false else before
lights pin (set_pwm p duty) before = if p == pin then true else before
lights pin (clear_pwm p) before = if p == pin then false else before
lights pin (acquire p) before = before
lights pin (release p) before = before
lights pin (slept ms) before = before

unfoldable pub is_lit : ℕ → List PinEffect → Bool
is_lit pin [] = false
is_lit pin (e ∷ log) = lights pin e (is_lit pin log)

abbrev pub holds : ℕ → PinEffect → Bool → Bool
holds pin (set_high p) before = before
holds pin (set_low p) before = before
holds pin (set_pwm p duty) before = before
holds pin (clear_pwm p) before = before
holds pin (acquire p) before = if p == pin then true else before
holds pin (release p) before = if p == pin then false else before
holds pin (slept ms) before = before

unfoldable pub is_held : ℕ → List PinEffect → Bool
is_held pin [] = false
is_held pin (e ∷ log) = holds pin e (is_held pin log)

-- A pin that is given whenever no test holds it.
abbrev pub IsFree : Gpio → ℕ → Type 0
IsFree gpio pin = (log : List PinEffect) → is_held pin log ≡ false → gpio.get_ok log pin ≡ true

-- Whether the pin is that of one of these LEDs.
unfoldable pub is_one : ℕ → List ℕ → Bool
is_one pin [] = false
is_one pin (i ∷ is) = get_or led_pins i 0 == pin || is_one pin is

unfoldable pub is_in : ℕ → List ℕ → Bool
is_in pin [] = false
is_in pin (p ∷ ps) = p == pin || is_in pin ps

pub set_led-is_held :
    (gpio : Gpio) (index : ℕ) (high : Bool) (pin : ℕ) (log : List PinEffect)
    → is_held pin (set_led (some gpio) index high log) ≡ is_held pin log
unfolding set_led is_held
set_led-is_held gpio index true pin log = ground arith
set_led-is_held gpio index false pin log = ground arith

pub set_led-is_lit :
    (gpio : Gpio) (index : ℕ) (high : Bool) (pin : ℕ) (log : List PinEffect)
    → is_lit pin (set_led (some gpio) index high log) ≡ (
        if get_or led_pins index 0 == pin
        then (if gpio.get_ok log pin then high else is_lit pin log)
        else is_lit pin log)
unfolding set_led is_lit
set_led-is_lit gpio index true pin log = ground arith
set_led-is_lit gpio index false pin log = ground arith

pub set_leds-is_held :
    (gpio : Gpio) (is : List ℕ) (high : Bool) (pin : ℕ) (log : List PinEffect)
    → is_held pin (set_leds (some gpio) is high log) ≡ is_held pin log
unfolding set_leds
set_leds-is_held gpio [] high pin log = refl
set_leds-is_held gpio (i ∷ is) high pin log =
    rw
      (
        set_leds-is_held gpio is high pin (set_led (some gpio) i high log),
        set_led-is_held gpio i high pin log,
      )
      refl

pub set_leds-is_lit :
    (gpio : Gpio) (pin : ℕ)
    → IsFree gpio pin
    → (is : List ℕ) (high : Bool) (log : List PinEffect) → is_held pin log ≡ false
    → is_lit pin (set_leds (some gpio) is high log)
      ≡ (if is_one pin is then high else is_lit pin log)
unfolding set_leds is_one
set_leds-is_lit gpio pin free [] high log unheld = refl
set_leds-is_lit gpio pin free (i ∷ is) high log unheld =
    let log' = set_led (some gpio) i high log in
    let rest =
      set_leds-is_lit gpio pin free is high log' (set_led-is_held gpio i high pin log ∙ unheld) in
    ground (arith, rest, set_led-is_lit gpio i high pin log, free log unheld)

pub drop_pins-is_lit :
    (active : List ℕ) (pin : ℕ) (log : List PinEffect)
    → is_lit pin (drop_pins active log) ≡ is_lit pin log
unfolding drop_pins is_lit
drop_pins-is_lit [] pin log = refl
drop_pins-is_lit (p ∷ ps) pin log = drop_pins-is_lit ps pin (release p ∷ log)

pub drop_pins-is_held :
    (active : List ℕ) (pin : ℕ) (log : List PinEffect)
    → is_held pin (drop_pins active log) ≡ (if is_in pin active then false else is_held pin log)
unfolding drop_pins is_in is_held
drop_pins-is_held [] pin log = refl
drop_pins-is_held (p ∷ ps) pin log = ground (arith, drop_pins-is_held ps pin (release p ∷ log))

pub is_in-append : (ps : List ℕ) (p pin : ℕ) → is_in pin (ps ++ p ∷ []) ≡ (is_in pin ps || p == pin)
unfolding is_in
is_in-append [] p pin = ground arith
is_in-append (q ∷ ps) p pin = ground (arith, is_in-append ps p pin)

-- A thread holds the pins that are held.
abbrev pub Owns : List ℕ → List PinEffect → Type 0
Owns active log = (pin : ℕ) → is_held pin log ≡ true → is_in pin active ≡ true

pub light_led-Owns :
    (gpio : Gpio) (index : ℕ) (active : List ℕ) (log : List PinEffect)
    → Owns active log
    → Owns (light_led (some gpio) index active log).0 (light_led (some gpio) index active log).1
unfolding light_led is_held
light_led-Owns gpio index active log owns pin =
    ground (arith, owns pin, is_in-append active (get_or led_pins index 0) pin)

-- With no test at work, the pin of an LED is dark after all go off.
pub all_leds_off-is_lit :
    (gpio : Gpio) (pin : ℕ) (active : List ℕ) (log : List PinEffect)
    → IsFree gpio pin
    → is_one pin indices ≡ true
    → Owns active log
    → let off = all_leds_off (some gpio) (drop_pins active log) in
      (is_lit pin off ≡ false) × (is_held pin off ≡ false)
unfolding all_leds_off
all_leds_off-is_lit gpio pin active log free led owns =
    let dropped = drop_pins active log in
    let unheld : is_held pin dropped ≡ false =
      ground (arith, owns pin, drop_pins-is_held active pin log) in
    (
      ground (arith, set_leds-is_lit gpio pin free indices false dropped unheld, led),
      set_leds-is_held gpio indices false pin dropped ∙ unheld,
    )
