-- ===== src/Uds/Dispatcher/Explained/Serve.antt =====
-- flxc1000-uds/src/dispatcher.rs: requests that are refused or served, and the history.
use flxc1000_rpi.Prelude.{ℕ, ◌≡◌, inl, inr, ◌==◌, true, false, Bool-cases, List, ◌∷◌, All, arith}
use flxc1000_rpi.Bytes.{IsU8, IsU32}
use flxc1000_rpi.Uds.Nrc
use flxc1000_rpi.Uds.Nrc.{
  Nrc, Result, ok, err, sub_function_not_supported, service_not_supported, conditions_not_correct,
  security_access_denied,
}
use flxc1000_rpi.Uds.Session.{SessionState}
use flxc1000_rpi.Uds.Security.{SecurityState}
use flxc1000_rpi.Uds.Dispatcher.{
  ServiceHandler, UdsDispatcher, Readings, handle_tester_present, serve,
}
use flxc1000_rpi.Uds.Dispatcher.History.{Exchange, leaves_seed, is_early, closes}
use flxc1000_rpi.Uds.Dispatcher.Explained.{IsExplained, keeps-IsExplained, entry}
use flxc1000_rpi.Uds.Dispatcher.Explained.Access.{handle_security_access-IsExplained}
use flxc1000_rpi.Uds.Dispatcher.Explained.Control.{handle_dsc-IsExplained}

-- A handler that leaves the security state alone.
abbrev pub KeepsSecurity : {H : Type 0} → ServiceHandler H → Type 0
KeepsSecurity {H} handler =
    (h : H) (sid : ℕ) (request : List ℕ) (session : SessionState) (security : SecurityState)
    → (handler.handle h sid request session security).3 ≡ security

not-access :
    (d : UdsDispatcher) (sid : ℕ) (more response : List ℕ)
    → (sid == 0x27) ≡ false
    → leaves_seed (entry d (sid ∷ more) response) ≡ true
not-access d sid more response other = ground arith

not-control :
    (d : UdsDispatcher) (sid : ℕ) (more response : List ℕ)
    → (sid == 0x10) ≡ false
    → closes (entry d (sid ∷ more) response) ≡ false
not-control d sid more response other = ground arith

-- A request that a check refuses.
pub refused-IsExplained :
    (nrc : Nrc) (sid : ℕ) (more : List ℕ) (d : UdsDispatcher) (log : List Exchange)
    → is_early (Nrc.code nrc) ≡ true
    → IsExplained d.security log
    → IsExplained d.security (entry d (sid ∷ more) (Nrc.response nrc sid) ∷ log)
unfolding Nrc.response
refused-IsExplained nrc sid more d log early h =
    keeps-IsExplained d.security _ log (ground arith) (ground arith) h

-- A request for another service.
other-IsExplained :
    (sid : ℕ) (more response : List ℕ) (d : UdsDispatcher) (log : List Exchange)
    → (sid == 0x10) ≡ false
    → (sid == 0x27) ≡ false
    → IsExplained d.security log
    → IsExplained d.security (entry d (sid ∷ more) response ∷ log)
other-IsExplained sid more response d log no_control no_access h =
    keeps-IsExplained d.security _ log (not-access d sid more response no_access)
      (not-control d sid more response no_control) h

tester_present-security :
    (request : List ℕ) (r : Readings) (d : UdsDispatcher)
    → (handle_tester_present request r d).1.security ≡ d.security
unfolding handle_tester_present
tester_present-security request r d = ground arith

module _ {H : Type 0} (handler : ServiceHandler H) (keeps : KeepsSecurity handler) where
  pub serve-IsExplained :
      (sid : ℕ) (more : List ℕ) (r : Readings) (h : H) (d : UdsDispatcher) (log : List Exchange)
      → All IsU8 more
      → IsU32 r.nanos
      → IsU32 r.sub_tick
      → IsExplained d.security log
      → let (response, h', d') = serve handler sid (sid ∷ more) r h d in
        IsExplained d'.security (entry d (sid ∷ more) response ∷ log)
  unfolding serve
  serve-IsExplained sid more r h d log bytes hn ht explained = elim (Bool-cases (sid == 0x10)) [
    | inl control ↦
        let e : sid ≡ 0x10 = ground arith in
        rw (control, e) (handle_dsc-IsExplained more r d log explained)
    | inr no_control ↦ elim (Bool-cases (sid == 0x27)) [
      | inl access ↦
          let e : sid ≡ 0x27 = ground arith in
          rw (no_control, access, e)
            (handle_security_access-IsExplained more r d log bytes hn ht explained)
      | inr no_access ↦ elim (Bool-cases (sid == 0x3E)) [
        | inl present ↦
            rw (no_control, no_access, present)
              (rw (tester_present-security (sid ∷ more) r d)
                (other-IsExplained sid more _ d log no_control no_access explained))
        | inr other ↦
            rw (no_control, no_access, other)
              (rw (keeps h sid (sid ∷ more) d.session d.security)
                (other-IsExplained sid more _ d log no_control no_access explained))
      ]
    ]
  ]
