-- ===== src/Uds/Dispatcher/Access.antt =====
-- flxc1000-uds/src/dispatcher.rs and security.rs: what a run must have seen before a request reaches
-- the service handler.
use flxc1000_rpi.Prelude.{
  ℕ, ◌≡◌, ◌≢◌, refl, ◌⊎◌, inl, inr, true, false, Bool-cases, ==_iff, ◌==◌, Option, none, some, List,
  [], ◌∷◌, arith,
}
use flxc1000_rpi.Uds.Session.{Session, session_eq, contains_session}
use flxc1000_rpi.Uds.Dispatcher.{
  ServiceHandler, UdsDispatcher, Readings, contains, second, is_denied, serve, process,
}
use flxc1000_rpi.Uds.Dispatcher.Gate.{ticked, process_gated}
use flxc1000_rpi.Uds.Dispatcher.Explained.Serve.{KeepsSecurity}
use flxc1000_rpi.Uds.Dispatcher.History.{Exchange, Opened}
use flxc1000_rpi.Uds.Dispatcher.Runs.{Run, Reach, Reach-Opened_iff}

abbrev pub IsListed : {A : Type 0} → A → List A → Type 0
IsListed x [] = ⊥
IsListed x (y ∷ ys) = (y ≡ x) ⊎ IsListed x ys

contains-IsListed : (ys : List ℕ) (x : ℕ) → contains ys x ≡ true → IsListed x ys
contains-IsListed [] x h = cc h
contains-IsListed (y ∷ ys) x h = elim (Bool-cases (y == x)) [
  | inl here ↦ inl ((==_iff y x).0 here)
  | inr other ↦ inr (contains-IsListed ys x (rw other at h))
]

session_eq-same : (s t : Session) → session_eq s t ≡ true → s ≡ t
session_eq-same s t h = ground arith

contains_session-IsListed :
    (ys : List Session) (x : Session) → contains_session ys x ≡ true → IsListed x ys
contains_session-IsListed [] x h = cc h
contains_session-IsListed (y ∷ ys) x h = elim (Bool-cases (session_eq y x)) [
  | inl here ↦ inl (session_eq-same y x here)
  | inr other ↦ inr (contains_session-IsListed ys x (rw other at h))
]

-- What is required is a level that the history shows to be open, or nothing.
abbrev pub IsOpen : Option ℕ → List Exchange → Type 0
IsOpen none log = Unit {0}
IsOpen (some level) log = Opened level log

module _ {H : Type 0} (handler : ServiceHandler H) where
  -- What the handler demands of a request for a service that is not one of the built-in ones.
  pub record IsPermitted (sid : ℕ) (more : List ℕ) (r : Readings) (y : Run H) : Type 0 where
    pub supported : IsListed sid (handler.supported_sids y.handler_state)
    pub in_session :
        IsListed
          (ticked r y.dispatcher).session.current
          (handler.allowed_sessions y.handler_state sid)
    pub opened :
        IsOpen (handler.required_security_level y.handler_state sid (second (sid ∷ more))) y.log
    pub not_built_in : (sid ≢ 0x10) × (sid ≢ 0x27) × (sid ≢ 0x3E)

  serve-built_in :
      (sid : ℕ) (request : List ℕ) (r : Readings) (h : H) (d : UdsDispatcher)
      → (serve handler sid request r h d).1 ≢ h
      → (sid ≢ 0x10) × (sid ≢ 0x27) × (sid ≢ 0x3E)
  unfolding serve
  serve-built_in sid request r h d changed =
      (λ e. changed (rw e refl), λ e. changed (rw e refl), λ e. changed (rw e refl))

  not_denied-IsOpen :
      (keeps : KeepsSecurity handler) (required : Option ℕ) {y : Run H}
      → Reach handler y
      → is_denied required y.dispatcher.security ≡ false
      → IsOpen required y.log
  unfolding is_denied
  not_denied-IsOpen keeps none reached free = tt
  not_denied-IsOpen keeps (some level) reached free =
      (Reach-Opened_iff handler keeps level reached).0 (ground arith)

  -- In every run of a dispatcher, a request changes the state of the service handler only where its
  -- service is one that the handler supports and none of the three built-in ones, where the session
  -- that is current once the timer was looked at is allowed for it, and where the requests and
  -- answers before it show that the level it requires, if any, was opened by an accepted key and not
  -- closed since. The service handler leaves the security state alone.
  pub Reach-IsPermitted :
      (sid : ℕ) (more : List ℕ) (r : Readings) {y : Run H}
      → KeepsSecurity handler
      → Reach handler y
      → (process handler (sid ∷ more) r y.handler_state y.dispatcher).1 ≢ y.handler_state
      → IsPermitted sid more r y
  Reach-IsPermitted sid more r {y = y} keeps reached changed =
      let h = y.handler_state in
      let d = y.dispatcher in
      elim (process_gated handler sid more r h d) [
        | inr (nrc, reason, refused) ↦ absurd (changed (rw refused refl))
        | inl (admitted, served) ↦ record {
          supported = contains-IsListed _ sid admitted.supported;
          in_session = contains_session-IsListed _ _ admitted.in_session;
          opened = not_denied-IsOpen keeps _ reached admitted.unlocked;
          not_built_in =
              serve-built_in sid (sid ∷ more) r h (ticked r d) (λ same. changed (rw served same));
        }
      ]
