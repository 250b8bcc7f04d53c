-- ===== src/App/Leds/Laws.antt =====
-- flxc1000-app/src/main.rs: what the blinking and the pulse leave behind.
use flxc1000_rpi.Prelude.{
  ◌∙◌, ℕ, ◌≡◌, refl, if◌then◌else◌, true, false, none, some, List, [], ◌∷◌, arith,
}
use flxc1000_rpi.App.Leds.{
  PinEffect, slept, Gpio, set_leds, indices, pulse_led, all_leds_off, blink, boot_blink,
}
use flxc1000_rpi.App.Leds.Pins.{is_lit, is_held, is_one, IsFree, set_leds-is_held, set_leds-is_lit}

module _ (gpio : Gpio) (pin : ℕ) (free : IsFree gpio pin) where
  pub blink-is_lit :
      (log : List PinEffect)
      → is_held pin log ≡ false
      → (is_lit pin (blink (some gpio) log)
          ≡ (if is_one pin indices then false else is_lit pin log))
        × (is_held pin (blink (some gpio) log) ≡ false)
  unfolding all_leds_off is_lit is_held
  blink-is_lit log unheld =
      let on = set_leds (some gpio) indices true log in
      let on-unheld : is_held pin on ≡ false =
        set_leds-is_held gpio indices true pin log ∙ unheld in
      (
        ground (
          arith,
          set_leds-is_lit gpio pin free indices false (slept 150 ∷ on) on-unheld,
          set_leds-is_lit gpio pin free indices true log unheld,
        ),
        set_leds-is_held gpio indices false pin (slept 150 ∷ on) ∙ on-unheld,
      )

  pulse_led-is_lit :
      (index duration_ms : ℕ) (log : List PinEffect)
      → is_held pin log ≡ false
      → is_lit pin (pulse_led (some gpio) index duration_ms log)
        ≡ (if is_one pin (index ∷ []) then false else is_lit pin log)
  unfolding pulse_led is_lit is_one
  pulse_led-is_lit index duration_ms log unheld = ground (arith, free log unheld)

  -- A pin that can be had while no self test holds it, and that none holds: the blinking at the
  -- start and the pulse of one LED leave it dark where it is the pin of an LED that they light, and
  -- as it was, lit or not, where it is not; and where there is no GPIO nothing is done to a pin.
  pub boot_blink-is_lit :
      (index duration_ms : ℕ) (log : List PinEffect)
      → is_held pin log ≡ false
      → (is_lit pin (boot_blink (some gpio) log)
          ≡ (if is_one pin indices then false else is_lit pin log))
        × (is_lit pin (pulse_led (some gpio) index duration_ms log)
            ≡ (if is_one pin (index ∷ []) then false else is_lit pin log))
        × (is_lit pin (boot_blink none log) ≡ is_lit pin log)
        × (is_lit pin (pulse_led none index duration_ms log) ≡ is_lit pin log)
  unfolding boot_blink all_leds_off set_leds pulse_led is_lit
  boot_blink-is_lit index duration_ms log unheld =
      let (once, still) = blink-is_lit log unheld in
      (
        ground (arith, (blink-is_lit (blink (some gpio) log) still).0, once),
        pulse_led-is_lit index duration_ms log unheld,
        refl,
        refl,
      )
