-- ===== src/App/Hooks.antt =====
-- flxc1000-app/src/main.rs: how the UDS server changes the shared state.

use flxc1000_rpi.Prelude.{
  ℕ, ◌≡◌, refl, ◌∙◌, ◌⊎◌, some, List, Star, stay, more, AtMostOnce, never, once, arith,
}
use flxc1000_rpi.Ace.{UdsServer, ReachesBy}
use flxc1000_rpi.App.Leds.{PinEffect}
use flxc1000_rpi.App.{SharedState, reset_none, reset_hard}
use flxc1000_rpi.App.Handler.{
  WriteResult, written, failed, boot_requested, read_did, write_did, ecu_reset,
}

-- A call of a hook other than the reset, or a change that the self test makes: its hook and its
-- threads write nothing but the status of the routine and the LEDs.
pub data Calls : SharedState → SharedState → Type 0 where
  reads : (did : ℕ) (s : SharedState) → Calls s (read_did did s).1
  writes : (did : ℕ) (bytes : List ℕ) (s : SharedState) → Calls s (write_did did bytes s).1
  tests :
      (status : ℕ) (leds : List PinEffect) (s : SharedState)
      → Calls s (record s { routine_status = status; leds = leds })

pub data Resets : SharedState → SharedState → Type 0 where
  resets :
      (reset_type : ℕ) (result : WriteResult) (s : SharedState)
      → Resets s (ecu_reset reset_type result s).1

-- A request is one service, and asks for a reset at most once; the timers ask for none.
abbrev pub IsAppServer : {S : Type 0} → UdsServer S SharedState → Type 0
IsAppServer ace = ReachesBy ace (λ request. AtMostOnce Resets Calls) (Star Calls)

-- No reset is pending, or the one that is wrote the boot state.
abbrev pub IsBacked : SharedState → Type 0
IsBacked s =
    (s.pending_reset ≡ reset_none)
    ⊎ ((s.pending_reset ≡ reset_hard) × (s.boot_state ≡ some boot_requested))

abbrev pub IsCalm : SharedState → Type 0
IsCalm s = s.pending_reset ≡ reset_none

abbrev SameReset : SharedState → SharedState → Type 0
SameReset s t = (t.pending_reset ≡ s.pending_reset) × (t.boot_state ≡ s.boot_state)

Calls-SameReset : {s t : SharedState} → Calls s t → SameReset s t
unfolding read_did write_did
Calls-SameReset (reads did s) = ground arith
Calls-SameReset (writes did bytes s) = ground arith
Calls-SameReset (tests status leds s) = (refl, refl)

Star-SameReset : {s t : SharedState} → Star Calls s t → SameReset s t
Star-SameReset stay = (refl, refl)
Star-SameReset (more call rest) = ground (arith, Calls-SameReset call, Star-SameReset rest)

Resets-IsBacked : {s t : SharedState} → Resets s t → IsCalm s → IsBacked t
unfolding ecu_reset
Resets-IsBacked (resets reset_type written s) calm = ground arith
Resets-IsBacked (resets reset_type (failed left) s) calm = ground arith

pub AtMostOnce-IsBacked : {s t : SharedState} → AtMostOnce Resets Calls s t → IsCalm s → IsBacked t
AtMostOnce-IsBacked (never calls) calm = ground (arith, Star-SameReset calls)
AtMostOnce-IsBacked (once before reset later) calm =
    ground (arith, Star-SameReset later, Resets-IsBacked reset ((Star-SameReset before).0 ∙ calm))

pub Star-IsBacked : {s t : SharedState} → Star Calls s t → IsBacked s → IsBacked t
Star-IsBacked calls backed = ground (arith, Star-SameReset calls)
