-- ===== src/App/Leds/Backing.antt =====
-- flxc1000-app/src/main.rs: what the functions for the LEDs keep: a pin that is lit is held.
use flxc1000_rpi.Prelude.{
  Bool-cases, inl, inr, sym, none, Option, ◌∙◌, ℕ, ◌≡◌, refl, Bool, true, false, ◌||◌, ◌==◌, some,
  List, [], ◌∷◌, get_or, arith,
}
use flxc1000_rpi.App.Leds.{
  PinEffect, slept, Gpio, led_pins, set_led, set_leds, light_led, drop_pins, indices, all_leds_off,
  boot_blink, blink,
}
use flxc1000_rpi.App.Leds.Pins.{
  is_lit, is_held, is_one, is_in, IsFree, set_leds-is_lit, set_led-is_lit, set_led-is_held,
  set_leds-is_held, drop_pins-is_lit, drop_pins-is_held, is_in-append,
}
use flxc1000_rpi.App.Leds.Laws.{blink-is_lit}

-- A pin that is lit is held, but where it is `pulsed`; and one that is held belongs to an owner.
abbrev pub Backed : ℕ → Bool → Bool → List PinEffect → Type 0
Backed pin pulsed owned log =
    (is_lit pin log ≡ true → is_held pin log || pulsed ≡ true)
    × (is_held pin log ≡ true → owned ≡ true)

-- With no GPIO no pin is ever lit.
abbrev pub BackedOn : Option Gpio → ℕ → Bool → Bool → List PinEffect → Type 0
BackedOn none pin pulsed owned log = is_lit pin log ≡ false
BackedOn (some gpio) pin pulsed owned log = Backed pin pulsed owned log

pub BackedOn-slept :
    (board : Option Gpio) (pin : ℕ) (pulsed owned : Bool) (ms : ℕ) (log : List PinEffect)
    → BackedOn board pin pulsed owned log
    → BackedOn board pin pulsed owned (slept ms ∷ log)
unfolding is_lit is_held
BackedOn-slept none pin pulsed owned ms log backed = backed
BackedOn-slept (some gpio) pin pulsed owned ms log backed = backed

-- Where there is a GPIO, it gives the pin whenever no test holds it.
abbrev pub FreeOn : Option Gpio → ℕ → Type 0
FreeOn none pin = Unit {0}
FreeOn (some gpio) pin = IsFree gpio pin

set_leds-goes_dark :
    (gpio : Gpio) (is : List ℕ) (pin : ℕ) (log : List PinEffect)
    → is_lit pin (set_leds (some gpio) is false log) ≡ true
    → is_lit pin log ≡ true
unfolding set_leds
set_leds-goes_dark gpio [] pin log lit = lit
set_leds-goes_dark gpio (i ∷ is) pin log lit = ground (
  arith,
  set_leds-goes_dark gpio is pin (set_led (some gpio) i false log) lit,
  set_led-is_lit gpio i false pin log,
)

pub all_leds_off-Backed :
    (board : Option Gpio) (pin : ℕ) (pulsed owned : Bool) (log : List PinEffect)
    → BackedOn board pin pulsed owned log
    → BackedOn board pin pulsed owned (all_leds_off board log)
unfolding all_leds_off set_leds set_led
all_leds_off-Backed none pin pulsed owned log backed = backed
all_leds_off-Backed (some gpio) pin pulsed owned log (held, owns) =
    let same = set_leds-is_held gpio indices false pin log in
    (λ lit. rw same (held (set_leds-goes_dark gpio indices pin log lit)), λ h. owns (sym same ∙ h))

-- The end of a test, for the pin of an LED: a pin that was dropped is dark behind it, unless another
-- test holds it.
pub drop_pins-Backed :
    (board : Option Gpio) (active : List ℕ) (pin : ℕ) (pulsed others : Bool) (log : List PinEffect)
    → FreeOn board pin
    → is_one pin indices ≡ true
    → BackedOn board pin pulsed (is_in pin active || others) log
    → BackedOn board pin pulsed others (all_leds_off board (drop_pins active log))
unfolding all_leds_off set_leds set_led
drop_pins-Backed none active pin pulsed others log free led dark =
    drop_pins-is_lit active pin log ∙ dark
drop_pins-Backed (some gpio) active pin pulsed others log free led backed =
    let dropped = drop_pins active log in
    let same = set_leds-is_held gpio indices false pin dropped in
    let given_back = drop_pins-is_held active pin log in
    elim (Bool-cases (is_held pin dropped)) [
      | inl held ↦
          let owner : others ≡ true = ground (arith, given_back, backed) in
          (λ lit. ground (arith, same, held), λ h. owner)
      | inr unheld ↦
          let dark = set_leds-is_lit gpio pin free indices false dropped unheld in
          (λ lit. absurd (ground (arith, dark, led, lit)), λ h. absurd (cc (h, same, unheld)))
    ]

pub light_led-Backed :
    (board : Option Gpio) (index : ℕ) (active : List ℕ) (pin : ℕ) (pulsed others : Bool)
    (log : List PinEffect)
    → BackedOn board pin pulsed (is_in pin active || others) log
    → let (active', log') = light_led board index active log in
      BackedOn board pin pulsed (is_in pin active' || others) log'
unfolding light_led is_lit is_held
light_led-Backed none index active pin pulsed others log backed = backed
light_led-Backed (some gpio) index active pin pulsed others log backed =
    ground (arith, backed, is_in-append active (get_or led_pins index 0) pin)

pub boot_blink-Backed :
    (board : Option Gpio) (pin : ℕ) (pulsed owned : Bool)
    → FreeOn board pin
    → BackedOn board pin pulsed owned (boot_blink board [])
unfolding boot_blink all_leds_off set_leds set_led is_lit is_held
boot_blink-Backed none pin pulsed owned free = refl
boot_blink-Backed (some gpio) pin pulsed owned free =
    let (first, still) = blink-is_lit gpio pin free [] refl in
    let (second, unheld) = blink-is_lit gpio pin free (blink (some gpio) []) still in
    ground (arith, first, second, unheld)

-- Whether the pin is that of the first LED, and there.
abbrev pub blinks : Option Gpio → ℕ → Bool
blinks none pin = false
blinks (some gpio) pin = get_or led_pins 0 0 == pin

-- The first LED goes on, and off again.
pub set_led_on-Backed :
    (board : Option Gpio) (pin : ℕ) (owned : Bool) (log : List PinEffect)
    → BackedOn board pin false owned log
    → BackedOn board pin (blinks board pin) owned (set_led board 0 true log)
unfolding set_led
set_led_on-Backed none pin owned log backed = backed
set_led_on-Backed (some gpio) pin owned log backed =
    ground (arith, set_led-is_lit gpio 0 true pin log, set_led-is_held gpio 0 true pin log, backed)

pub set_led_off-Backed :
    (board : Option Gpio) (pin : ℕ) (owned : Bool) (log : List PinEffect)
    → FreeOn board pin
    → BackedOn board pin (blinks board pin) owned log
    → BackedOn board pin false owned (set_led board 0 false log)
unfolding set_led
set_led_off-Backed none pin owned log free backed = backed
set_led_off-Backed (some gpio) pin owned log free backed = ground (
  arith,
  set_led-is_lit gpio 0 false pin log,
  set_led-is_held gpio 0 false pin log,
  free log,
  backed,
)
