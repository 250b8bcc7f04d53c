-- ===== src/Uds/Dispatcher/Explained.antt =====
-- flxc1000-uds/src/dispatcher.rs and security.rs: each service leaves a security state that
-- the history of the requests and answers explains.
pub mod Access
pub mod Control
pub mod Serve
use flxc1000_rpi.Prelude.{
  ℕ, bit_or, ◌^◌, ◌≢◌, suc, ◌-◌, ◌%◌, ◌≡◌, refl, ◌⊎◌, inl, inr, ltb, ◌<◌, ◌==◌, true, false, not,
  Bool-cases, bit_and, ◌&&◌, Option, none, some, List, [], ◌∷◌, length, All, arith,
}
use flxc1000_rpi.Bytes.{IsU8, IsU32, u32_to_be_bytes}
use flxc1000_rpi.Bytes.Bitwise.{not-has_bit-zero, has_bit-insert}
use flxc1000_rpi.Uds.Nrc
use flxc1000_rpi.Uds.Nrc.{
  Nrc, Result, ok, err, sub_function_not_supported, service_not_supported, conditions_not_correct,
  security_access_denied,
}
use flxc1000_rpi.Uds.Session
use flxc1000_rpi.Uds.Session.{Session, default, SessionState, is_allowed, session_eq}
use flxc1000_rpi.Uds.Security
use flxc1000_rpi.Uds.Security.{
  SecurityState, is_unlocked, request_seed, submit_key, draw_seed, shift_of,
}
use flxc1000_rpi.Uds.Security.Invariant.{
  IsSound, draw_seed_fits, request_seed-IsSound, submit_key-IsSound, reset-IsSound,
}
use flxc1000_rpi.Uds.Security.Handshake.{submit_key_unlocks_only}
use flxc1000_rpi.Uds.Dispatcher.{
  ServiceHandler, UdsDispatcher, Readings, handle_dsc, switch_session, handle_security_access,
  handle_tester_present, seed_response, key_response, serve,
}
use flxc1000_rpi.Uds.Dispatcher.History.{
  Exchange, is_negative, leaves_seed, is_early, closes, Pending, Unlocks, Opened,
}

-- What the history explains: the seed that waits, and the levels that are unlocked.
pub record IsExplained (s : SecurityState) (log : List Exchange) : Type 0 where
  pub sound : IsSound s
  pub seed : (level seed : ℕ) → s.pending_seed ≡ some (level, seed) → Pending level seed log
  pub unlocked : (level : ℕ) → is_unlocked s level ≡ true → Opened level log
  pub opened : (level : ℕ) → Opened level log → is_unlocked s level ≡ true

-- An exchange that uses no seed up has no key that was accepted, and neither has a negative answer.
pub not-Unlocks :
    (level : ℕ) (x : Exchange) (log : List Exchange)
    → leaves_seed x ≡ true
    → Unlocks level x log
    → ⊥
not-Unlocks level x log quiet u =
    let asked = u.asked in let accepted = u.accepted in absurd (cc (rw (asked, accepted) at quiet))

pub Unlocks-positive :
    (level : ℕ) (x : Exchange) (log : List Exchange) → Unlocks level x log → is_negative x ≡ false
Unlocks-positive level x log u = rw (u.accepted) refl

pub keeps-IsExplained :
    (s : SecurityState) (x : Exchange) (log : List Exchange)
    → leaves_seed x ≡ true
    → closes x ≡ false
    → IsExplained s log
    → IsExplained s (x ∷ log)
keeps-IsExplained s x log quiet kept h = record {
  sound = h.sound;
  seed = λ level seed e. inr (quiet, h.seed level seed e);
  unlocked = λ level e. inr (kept, h.unlocked level e);
  opened = λ level o. elim o [
    | inl u ↦ absurd (not-Unlocks level x log quiet u)
    | inr (_, before) ↦ h.opened level before
  ];
}

pub reset-IsExplained :
    (s : SecurityState) (x : Exchange) (log : List Exchange)
    → leaves_seed x ≡ true
    → closes x ≡ true
    → IsExplained s log
    → IsExplained (Security.reset s) (x ∷ log)
unfolding Security.reset is_unlocked
reset-IsExplained s x log quiet closed h = record {
  sound = unfold Security.reset in reset-IsSound s h.sound;
  seed = λ level seed e. absurd (cc e);
  unlocked = λ level e. absurd (cc (not-has_bit-zero (shift_of level), e));
  opened = λ level o. elim o [
    | inl u ↦ absurd (not-Unlocks level x log quiet u)
    | inr (kept, _) ↦ absurd (cc (kept, closed))
  ];
}

-- The entry for a request that the dispatcher serves.
abbrev pub entry : UdsDispatcher → List ℕ → List ℕ → Exchange
entry d request response = record {
  session = d.session.current;
  request = request;
  response = response;
}
