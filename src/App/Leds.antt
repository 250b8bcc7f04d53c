-- ===== src/App/Leds.antt =====
-- flxc1000-app/src/main.rs: the LEDs. The pins are reached through the crate rppal: whether a pin
-- can be had and whether it takes a PWM frequency is a parameter, and what is done to the pins is
-- a log, newest first.
pub mod Pins
pub mod Laws
pub mod Backing
use flxc1000_rpi.Prelude.{
  ◌++◌, ℕ, ◌≡◌, refl, ◌==◌, if◌then◌else◌, Bool, true, false, ◌&&◌, ◌||◌, Option, none, some, List,
  [], ◌∷◌, get_or, arith,
}

abbrev pub led_pins : List ℕ
led_pins = 5 ∷ 6 ∷ 13 ∷ 19 ∷ 26 ∷ []

-- In hundredths.
abbrev pub led_duty : List ℕ
led_duty = 40 ∷ 55 ∷ 70 ∷ 85 ∷ 100 ∷ []

-- `acquire` stands for `into_output` where the handle is kept, and `release` for the drop of such a
-- handle, which stops the PWM. The code drives the pin low behind it, so it is not relied on that
-- the drop changes the level of the pin.
pub data PinEffect : Type 0 where
  set_high set_low clear_pwm acquire release : ℕ → PinEffect
  set_pwm : ℕ → ℕ → PinEffect  -- pin and duty, at 1000 Hz
  slept : ℕ → PinEffect  -- milliseconds

-- What rppal answers may depend on all that was done before: a pin that is held is not given twice.
pub record Gpio : Type 0 where
  pub get_ok : List PinEffect → ℕ → Bool
  pub pwm_ok : List PinEffect → ℕ → Bool

abbrev pub drive : Bool → ℕ → PinEffect
drive true pin = set_high pin
drive false pin = set_low pin

-- At its brightness, or high where that fails.
abbrev pub brighten : Gpio → List PinEffect → ℕ → ℕ → PinEffect
brighten gpio log pin duty = if gpio.pwm_ok log pin then set_pwm pin duty else set_high pin

-- With no GPIO the LED is only simulated in the log of the program.
unfoldable pub set_led : Option Gpio → ℕ → Bool → List PinEffect → List PinEffect
set_led none index high log = log
set_led (some gpio) index high log =
    let pin = get_or led_pins index 0 in if gpio.get_ok log pin then drive high pin ∷ log else log

unfoldable pub set_leds : Option Gpio → List ℕ → Bool → List PinEffect → List PinEffect
unfolding set_led
set_leds gpio [] high log = log
set_leds gpio (i ∷ is) high log = set_leds gpio is high (set_led gpio i high log)

abbrev pub indices : List ℕ
indices = 0 ∷ 1 ∷ 2 ∷ 3 ∷ 4 ∷ []

unfoldable pub all_leds_off : Option Gpio → List PinEffect → List PinEffect
unfolding set_leds
all_leds_off gpio log = set_leds gpio indices false log

-- The pin at its brightness, then low again.
unfoldable pub pulse_led : Option Gpio → ℕ → ℕ → List PinEffect → List PinEffect
pulse_led none index duration_ms log = slept duration_ms ∷ log
pulse_led (some gpio) index duration_ms log =
    let pin = get_or led_pins index 0 in
    if gpio.get_ok log pin
    then set_low pin
      ∷ clear_pwm pin
      ∷ slept duration_ms
      ∷ brighten gpio log pin (get_or led_duty index 0)
      ∷ log
    else slept duration_ms ∷ log

-- A round of the self test: the pin at its brightness, and held among the active pins.
unfoldable pub light_led : Option Gpio → ℕ → List ℕ → List PinEffect → List ℕ × List PinEffect
light_led none index active log = (active, slept 200 ∷ log)
light_led (some gpio) index active log =
    let pin = get_or led_pins index 0 in
    if gpio.get_ok log pin
    then (
      active ++ pin ∷ [],
      slept 200 ∷ brighten gpio log pin (get_or led_duty index 0) ∷ acquire pin ∷ log,
    )
    else (active, slept 200 ∷ log)

-- `drop(active_pins)`
unfoldable pub drop_pins : List ℕ → List PinEffect → List PinEffect
drop_pins [] log = log
drop_pins (pin ∷ pins) log = drop_pins pins (release pin ∷ log)

abbrev pub blink : Option Gpio → List PinEffect → List PinEffect
blink gpio log = slept 150 ∷ all_leds_off gpio (slept 150 ∷ set_leds gpio indices true log)

unfoldable pub boot_blink : Option Gpio → List PinEffect → List PinEffect
unfolding all_leds_off
boot_blink gpio log = blink gpio (blink gpio log)
