-- ===== src/Uds/Dispatcher/Timer.antt =====
-- flxc1000-uds/src/dispatcher.rs and session.rs: the S3 timer, and what a change of session does to
-- the unlocked levels.
use flxc1000_rpi.Prelude.{
  ℕ, ◌+◌, ◌-◌, ◌≤◌, ◌<◌, ◌≡◌, ◌≢◌, refl, ap, ◌↔◌, ◌⊎◌, inl, inr, ◌&&◌, Bool-cases, bit_and, true,
  false, not, some, none, ltb, length, List, ◌∷◌, arith,
}
use flxc1000_rpi.Bytes.Bitwise.{not-has_bit-zero}
use flxc1000_rpi.Uds.Session
use flxc1000_rpi.Uds.Session.{
  Session, default, programming, extended, session_eq, contains_session, SessionState, is_allowed,
  tick, touch, transition,
}
use flxc1000_rpi.Uds.Security.{is_unlocked, shift_of}
use flxc1000_rpi.Uds.Dispatcher.{
  ServiceHandler, UdsDispatcher, Readings, handle_dsc, tick_session, process_ticked, process,
}

-- `process` never ends an idle session: it marks the activity before it looks at the timer. However
-- long the tester was silent, a request that is not itself held up between the two readings of the
-- clock for longer than the timeout is checked and served in the session that was left.
pub process_keeps_session :
    {H : Type 0} (handler : ServiceHandler H) (request : List ℕ) (r : Readings) (h : H)
    (d : UdsDispatcher)
    → r.ticked ≤ r.touched + d.session.s3_timeout
    → process handler request r h d
      ≡ process_ticked handler request r h
          (record d { session = record (d.session) { last_activity = r.touched } })
unfolding process
process_keeps_session handler request r h d quick =
    ap (λ (s : SessionState). process_ticked handler request r h (record d { session = s })) same
  where
    same :
        tick r.ticked (touch r.touched d.session) ≡ record (d.session) { last_activity = r.touched }
    same = unfold tick touch in ground arith

-- A tick of the timer leaves the default session current exactly if it was current before or the
-- session has been idle for longer than the timeout. It changes nothing else: every level that was
-- unlocked in the session that has ended stays unlocked.
pub tick_session_expires :
    (now : ℕ) (d : UdsDispatcher)
    → let after = tick_session now d in
      let idle = now - d.session.last_activity in
      ((after.session.current ≡ default)
        ↔ ((d.session.current ≡ default) ⊎ (d.session.s3_timeout < idle)))
      × (after.session ≡ record (d.session) { current = after.session.current })
      × ((after.session.current ≡ default) ⊎ (after.session ≡ d.session))
      × (after.security ≡ d.security)
unfolding tick_session
tick_session_expires now d = ground arith

-- A request for an allowed session makes it current and restarts the timer. Where that is the
-- default session and another one was left, it locks every level and drops the pending seed, but
-- neither clears the count of failed attempts nor ends a lockout; in all other cases the security
-- state stays as it was, also on the way from one session to another that is not the default one.
pub handle_dsc_moves :
    (sid subfunc : ℕ) (more : List ℕ) (r : Readings) (d : UdsDispatcher) {session : Session}
    → Session.from_byte (bit_and subfunc 0x7F) ≡ some session
    → is_allowed d.session session ≡ true
    → let after = (handle_dsc (sid ∷ subfunc ∷ more) r d).1 in
      (after.session ≡ record (d.session) { current = session; last_activity = r.served })
      × (((session ≡ default)
            × (d.session.current ≢ default)
            × ((level : ℕ) → is_unlocked after.security level ≡ false)
            × (after.security.pending_seed ≡ none)
            × (after.security.failed_attempts ≡ d.security.failed_attempts)
            × (after.security.lockout_until ≡ d.security.lockout_until))
          ⊎ (((session ≢ default) ⊎ (d.session.current ≡ default)) × (after.security ≡ d.security)))
unfolding handle_dsc is_unlocked
handle_dsc_moves sid subfunc more r d {session} named allowed =
    let long : ltb (length (sid ∷ subfunc ∷ more)) 2 ≡ false = ground arith in
    elim (Bool-cases (not (session_eq d.session.current session) && session_eq session default)) [
      | inl leaves ↦
          let (to, from) : (session ≡ default) × (d.session.current ≢ default) = ground arith in
          rw (long, named, allowed, leaves)
            (refl, inl (to, from, λ level. not-has_bit-zero (shift_of level), refl, refl, refl))
      | inr stays ↦
          let others : (session ≢ default) ⊎ (d.session.current ≡ default) = ground arith in
          rw (long, named, allowed, stays) (refl, inr (others, refl))
    ]
