-- ===== src/App/Routine/Lights.antt =====
-- flxc1000-app/src/main.rs: which LEDs the self test leaves lit, under any interleaving of its
-- threads and the hook.
use flxc1000_rpi.Prelude.{
  Option, none, some, ◌⊎◌, Bool-cases, inl, inr, ltb, ◌==◌, ℕ, zero, suc, ◌≡◌, refl, ◌||◌, Bool,
  true, false, List, [], ◌∷◌, ◌++◌, arith,
}
use flxc1000_rpi.App.{SharedState}
use flxc1000_rpi.App.Leds.{Gpio, PinEffect, slept, indices}
use flxc1000_rpi.App.Leds.Pins.{is_lit, is_held, is_in, is_one}
use flxc1000_rpi.App.Leds.Backing.{
  set_led_on-Backed, set_led_off-Backed, blinks, FreeOn, boot_blink-Backed, all_leds_off-Backed,
  light_led-Backed, drop_pins-Backed, BackedOn, BackedOn-slept,
}
use flxc1000_rpi.App.Routine.{
  Cascade, starting, at_round, finished, advance, advance_at, Next, answer, spawn_then_answer,
  abort_then_answer, switch_off_then_answer, begin_read_did, load_status, System, routine_control,
  finish, finish_control, led_count, routine_aborted,
}
use flxc1000_rpi.App.Routine.Runs.{Step, calls, reads, serves, ends, advances, Reach, begin, after}

-- A thread between its first step and its last one that took the pin.
abbrev pub took : ℕ → Cascade → Bool
took pin starting = false
took pin (at_round i active) = is_in pin active
took pin finished = false

unfoldable pub any_took : ℕ → List Cascade → Bool
any_took pin [] = false
any_took pin (t ∷ ts) = took pin t || any_took pin ts

any_took-append :
    (pin : ℕ) (ts : List Cascade) → any_took pin (ts ++ starting ∷ []) ≡ any_took pin ts
unfolding any_took
any_took-append pin [] = refl
any_took-append pin (t ∷ ts) = rw (any_took-append pin ts) refl

weaken :
    (board : Option Gpio) (pin : ℕ) (pulsed owned owned' : Bool) (log : List PinEffect)
    → (owned ≡ true → owned' ≡ true)
    → BackedOn board pin pulsed owned log
    → BackedOn board pin pulsed owned' log
weaken none pin pulsed owned owned' log wider dark = dark
weaken (some gpio) pin pulsed owned owned' log wider (held, owns) = (held, λ h. wider (owns h))

module _ (pin : ℕ) (led : is_one pin indices ≡ true) where
  advance-Backed :
      (pulsed : Bool) (t : Cascade) (s : SharedState) (others : Bool)
      → FreeOn s.gpio pin
      → BackedOn s.gpio pin pulsed (took pin t || others) s.leds
      → BackedOn s.gpio pin pulsed (took pin (advance t s).0 || others) (advance t s).1.leds
  unfolding advance is_in
  advance-Backed pulsed starting s others free backed =
      all_leds_off-Backed s.gpio pin pulsed others s.leds backed
  advance-Backed pulsed (at_round i active) s others free backed =
      let owned = is_in pin active || others in
      elim (Bool-cases (ltb i led_count)) [
        | inr last ↦ rw last (
            drop_pins-Backed s.gpio active pin pulsed others (slept 500 ∷ s.leds) free led
              (BackedOn-slept s.gpio pin pulsed owned 500 s.leds backed))
        | inl more ↦ elim (Bool-cases (s.routine_status == routine_aborted)) [
          | inl aborted ↦
              rw (more, aborted)
                (drop_pins-Backed s.gpio active pin pulsed others s.leds free led backed)
          | inr goes_on ↦
              rw (more, goes_on) (light_led-Backed s.gpio i active pin pulsed others s.leds backed)
        ]
      ]
  advance-Backed pulsed finished s others free backed = backed

  advance_at-Backed :
      (pulsed : Bool) (k : ℕ) (ts : List Cascade) (s : SharedState) (others : Bool)
      → FreeOn s.gpio pin
      → BackedOn s.gpio pin pulsed (any_took pin ts || others) s.leds
      → BackedOn s.gpio pin pulsed
          (any_took pin (advance_at k ts s).0 || others)
          (advance_at k ts s).1.leds
  unfolding advance_at any_took
  advance_at-Backed pulsed zero [] s others free backed = backed
  advance_at-Backed pulsed (suc k) [] s others free backed = backed
  advance_at-Backed pulsed zero (t ∷ ts) s others free backed =
      let (t', s') = advance t s in
      weaken s.gpio pin pulsed (took pin t' || (any_took pin ts || others)) _ s'.leds (ground arith)
        (advance-Backed pulsed t s (any_took pin ts || others) free (
          weaken s.gpio pin pulsed ((took pin t || any_took pin ts) || others) _ s.leds
            (ground arith) backed))
  advance_at-Backed pulsed (suc k) (t ∷ ts) s others free backed =
      let (ts', s') = advance_at k ts s in
      weaken s.gpio pin pulsed (any_took pin ts' || (took pin t || others)) _ s'.leds (ground arith)
        (advance_at-Backed pulsed k ts s (took pin t || others) free (
          weaken s.gpio pin pulsed ((took pin t || any_took pin ts) || others) _ s.leds
            (ground arith) backed))

advance-gpio : (t : Cascade) (s : SharedState) → (advance t s).1.gpio ≡ s.gpio
unfolding advance
advance-gpio starting s = refl
advance-gpio (at_round i active) s = ground arith
advance-gpio finished s = refl

advance_at-gpio :
    (k : ℕ) (ts : List Cascade) (s : SharedState) → (advance_at k ts s).1.gpio ≡ s.gpio
unfolding advance_at
advance_at-gpio zero [] s = refl
advance_at-gpio (suc k) [] s = refl
advance_at-gpio zero (t ∷ ts) s = advance-gpio t s
advance_at-gpio (suc k) (t ∷ ts) s = advance_at-gpio k ts s

module _ (pin : ℕ) (led : is_one pin indices ≡ true) where
  -- The first LED is on between the two calls of `set_led` in `read_did`.
  abbrev pulsed_by : Next → Option Gpio → Bool
  pulsed_by switch_off_then_answer board = blinks board pin
  pulsed_by next board = false

  abbrev Holds : System → Type 0
  Holds y =
      FreeOn y.shared.gpio pin
      → BackedOn y.shared.gpio pin (pulsed_by y.pending y.shared.gpio)
          (any_took pin y.threads || false) y.shared.leds

  finish-Holds : (next : Next) (y : System) → y.pending ≡ next → Holds y → Holds (finish next y)
  finish-Holds answer y e holds free = holds free
  finish-Holds spawn_then_answer y e holds free =
      rw (any_took-append pin y.threads) (rw e at (holds free))
  finish-Holds abort_then_answer y e holds free = rw e at (holds free)
  finish-Holds switch_off_then_answer y e holds free =
      set_led_off-Backed y.shared.gpio pin (any_took pin y.threads || false) y.shared.leds free
        (rw e at (holds free))

  -- No call of `routine_control` leaves the LED to be switched off.
  load_status-pulsed :
      (routine_id sub_function status : ℕ) (board : Option Gpio)
      → pulsed_by (load_status routine_id sub_function status).1 board ≡ false
  unfolding load_status
  load_status-pulsed routine_id sub_function status board = ground arith

  begin_read_did-Holds :
      (did : ℕ) (y : System) → y.pending ≡ answer → Holds y → Holds (begin_read_did did y)
  unfolding begin_read_did
  begin_read_did-Holds did y idle holds = elim (Bool-cases (did == 0xF200)) [
    | inr other ↦ rw other holds
    | inl power ↦ rw power (λ free.
        set_led_on-Backed y.shared.gpio pin (any_took pin y.threads || false) y.shared.leds
          (rw idle at (holds free)))
  ]

  Step-Holds : {y z : System} → Step y z → Holds y → Holds z
  unfolding routine_control finish_control
  Step-Holds {y = y} (calls routine_id sub_function idle) holds = λ free.
      rw (load_status-pulsed routine_id sub_function y.shared.routine_status y.shared.gpio)
        (rw idle at (holds free))
  Step-Holds {y = y} (reads did idle) holds = begin_read_did-Holds did y idle holds
  Step-Holds {y = y} ends holds = finish-Holds y.pending y refl holds
  Step-Holds (serves shared idle (_, board, leds)) holds =
      λ free. rw (board, leds) (holds (rw board at free))
  Step-Holds {y = y} (advances k) holds = λ free.
      let same = advance_at-gpio k y.threads y.shared in
      rw same (
        advance_at-Backed pin led (pulsed_by y.pending y.shared.gpio) k y.threads y.shared false
          (rw same at free) (holds (rw same at free)))

  Reach-Holds : {y : System} → Reach y → Holds y
  unfolding any_took
  Reach-Holds (begin gpio boot_state) = λ free. boot_blink-Backed gpio pin false false free
  Reach-Holds (after reached step) = Step-Holds step (Reach-Holds reached)

  pulsed→first :
      (next : Next) (board : Option Gpio)
      → pulsed_by next board ≡ true
      → (pin ≡ 5) × (next ≡ switch_off_then_answer)
  pulsed→first switch_off_then_answer none h = absurd (cc h)
  pulsed→first switch_off_then_answer (some gpio) h = (ground arith, refl)
  pulsed→first answer board h = absurd (cc h)
  pulsed→first spawn_then_answer board h = absurd (cc h)
  pulsed→first abort_then_answer board h = absurd (cc h)

  BackedOn→held :
      (board : Option Gpio) (pulsed owned : Bool) (log : List PinEffect)
      → BackedOn board pin pulsed owned log
      → is_lit pin log ≡ true
      → ((is_held pin log ≡ true) × (owned ≡ true)) ⊎ (pulsed ≡ true)
  BackedOn→held none pulsed owned log dark lit = absurd (cc (dark, lit))
  BackedOn→held (some gpio) pulsed owned log (backed, owns) lit =
      elim (Bool-cases (is_held pin log)) [
        | inl held ↦ inl (held, owns held)
        | inr unheld ↦ inr (ground (arith, backed lit, unheld))
      ]

  -- However the threads of the self test, the hooks and the main loop interleave, a pin of an LED
  -- that is lit is held, and belongs to a thread between its first step and its last one, or it is
  -- that of the first LED and a read of 0xF200 is about to switch it off: so no LED stays lit when
  -- no test is at work. This holds of a pin that the GPIO, where there is one, gives whenever no test
  -- holds it.
  pub Reach-is_lit :
      {y : System}
      → Reach y
      → FreeOn y.shared.gpio pin
      → is_lit pin y.shared.leds ≡ true
      → ((is_held pin y.shared.leds ≡ true) × (any_took pin y.threads ≡ true))
        ⊎ ((pin ≡ 5) × (y.pending ≡ switch_off_then_answer))
  Reach-is_lit {y = y} reached free lit =
      elim (BackedOn→held y.shared.gpio (pulsed_by y.pending y.shared.gpio) _ y.shared.leds
        (Reach-Holds reached free) lit) [
          | inl (held, owned) ↦ inl (held, ground (arith, owned))
          | inr pulsed ↦ inr (pulsed→first y.pending y.shared.gpio pulsed)
        ]
