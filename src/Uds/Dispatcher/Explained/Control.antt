-- ===== src/Uds/Dispatcher/Explained/Control.antt =====
-- flxc1000-uds/src/dispatcher.rs: `handle_dsc` and the history.
use flxc1000_rpi.Prelude.{
  ℕ, ◌≡◌, refl, inl, inr, ltb, ◌==◌, true, false, not, Bool-cases, bit_and, ◌&&◌, Option, none,
  some, List, [], ◌∷◌, length, arith,
}
use flxc1000_rpi.Uds.Nrc
use flxc1000_rpi.Uds.Nrc.{
  Nrc, Result, ok, err, sub_function_not_supported, service_not_supported, conditions_not_correct,
  security_access_denied,
}
use flxc1000_rpi.Uds.Session
use flxc1000_rpi.Uds.Session.{Session, default, SessionState, is_allowed, session_eq}
use flxc1000_rpi.Uds.Dispatcher.{UdsDispatcher, Readings, handle_dsc, switch_session}
use flxc1000_rpi.Uds.Dispatcher.History.{Exchange}
use flxc1000_rpi.Uds.Dispatcher.Explained.{IsExplained, keeps-IsExplained, reset-IsExplained, entry}

-- A switch that does not reset the security state does not go to the default session from another.
kept_open :
    (sub : ℕ) (current session : Session)
    → Session.from_byte (bit_and sub 0x7F) ≡ some session
    → (not (session_eq current session) && session_eq session default) ≡ false
    → (bit_and sub 0x7F == 0x01 ≡ true)
    → not (session_eq current default) ≡ false
unfolding Session.from_byte
kept_open sub current session named keeps one = ground arith

closed :
    (sub : ℕ) (current session : Session)
    → Session.from_byte (bit_and sub 0x7F) ≡ some session
    → (not (session_eq current session) && session_eq session default) ≡ true
    → (bit_and sub 0x7F ≡ 0x01) × (not (session_eq current default) ≡ true)
unfolding Session.from_byte
closed sub current session named resets = ground arith

switch_session-IsExplained :
    (sub : ℕ) (more : List ℕ) (o : Option Session) (r : Readings) (d : UdsDispatcher)
    (log : List Exchange)
    → Session.from_byte (bit_and sub 0x7F) ≡ o
    → IsExplained d.security log
    → let (response, d') = switch_session (not (bit_and sub 0x80 == 0)) (bit_and sub 0x7F) o r d in
      IsExplained d'.security (entry d (0x10 ∷ sub ∷ more) response ∷ log)
unfolding switch_session
switch_session-IsExplained sub more none r d log named h =
    keeps-IsExplained d.security _ log refl (unfold Nrc.response in ground arith) h
switch_session-IsExplained sub more (some session) r d log named h =
    elim (Bool-cases (is_allowed d.session session)) [
      | inr refused ↦
          rw refused
            (keeps-IsExplained d.security _ log refl (unfold Nrc.response in ground arith) h)
      | inl allowed ↦
          elim (Bool-cases
            (not (session_eq d.session.current session) && session_eq session default)) [
              | inl resets ↦
                  rw (allowed, resets)
                    (reset-IsExplained d.security _ log refl
                      (ground (arith, closed sub d.session.current session named resets)) h)
              | inr keeps ↦
                  rw (allowed, keeps)
                    (keeps-IsExplained d.security _ log refl
                      (ground (arith, kept_open sub d.session.current session named keeps)) h)
            ]
    ]

pub handle_dsc-IsExplained :
    (more : List ℕ) (r : Readings) (d : UdsDispatcher) (log : List Exchange)
    → IsExplained d.security log
    → let (response, d') = handle_dsc (0x10 ∷ more) r d in
      IsExplained d'.security (entry d (0x10 ∷ more) response ∷ log)
unfolding handle_dsc
handle_dsc-IsExplained [] r d log h =
    keeps-IsExplained d.security _ log refl (unfold Nrc.response in ground arith) h
handle_dsc-IsExplained (sub ∷ more) r d log h =
    let long : ltb (length (0x10 ∷ sub ∷ more)) 2 ≡ false = ground arith in
    rw long
      (switch_session-IsExplained sub more (Session.from_byte (bit_and sub 0x7F)) r d log refl h)
