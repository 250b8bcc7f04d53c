-- ===== src/Uds/Dispatcher/Gate.antt =====
-- flxc1000-uds/src/dispatcher.rs: a request reaches the service handler only through the checks.
use flxc1000_rpi.Prelude.{
  ℕ, ◌≡◌, refl, ◌⊎◌, inl, inr, Bool, true, false, Bool-cases, ◌==◌, not, ◌&&◌, Option, some, none,
  ltb, length, List, [], ◌∷◌, arith,
}
use flxc1000_rpi.Uds.Nrc
use flxc1000_rpi.Uds.Nrc.{
  Nrc, Result, ok, err, service_not_supported, conditions_not_correct, security_access_denied,
}
use flxc1000_rpi.Uds.Session.{
  Session, default, session_eq, contains_session, SessionState, is_allowed, tick, touch,
}
use flxc1000_rpi.Uds.Dispatcher.{
  handle_dsc, switch_session, handle_security_access, handle_tester_present, ServiceHandler,
  UdsDispatcher, Readings, contains, second, is_denied, serve, process,
}

-- The dispatcher after `touch` and `tick`.
abbrev pub ticked : Readings → UdsDispatcher → UdsDispatcher
ticked r d = record d { session = tick r.ticked (touch r.touched d.session) }

abbrev pub IsInSession : SessionState → Type 0
IsInSession s = is_allowed s s.current ≡ true

tick-is_allowed :
    (now : ℕ) (s : SessionState)
    → is_allowed s default ≡ true
    → IsInSession s
    → IsInSession (tick now s)
unfolding tick is_allowed
tick-is_allowed now s has_default h = ground arith

touch-is_allowed : (now : ℕ) (s : SessionState) → IsInSession s → IsInSession (touch now s)
unfolding touch is_allowed
touch-is_allowed now s h = h

switch-is_allowed :
    (suppress : Bool) (subfunc : ℕ) (o : Option Session) (r : Readings) (d : UdsDispatcher)
    → IsInSession d.session
    → IsInSession (switch_session suppress subfunc o r d).1.session
unfolding switch_session
switch-is_allowed suppress subfunc none r d h = h
switch-is_allowed suppress subfunc (some session) r d h =
    elim (Bool-cases (is_allowed d.session session)) [
      | inr e ↦ rw e h
      | inl e ↦
          elim (Bool-cases
            (not (session_eq d.session.current session) && session_eq session default)) [
              | inl left ↦ rw (e, left) e
              | inr kept ↦ rw (e, kept) e
            ]
    ]

handle_dsc-is_allowed :
    (request : List ℕ) (r : Readings) (d : UdsDispatcher)
    → IsInSession d.session
    → IsInSession (handle_dsc request r d).1.session
unfolding handle_dsc
handle_dsc-is_allowed request r d h = elim (Bool-cases (ltb (length request) 2)) [
  | inl short ↦ rw short h
  | inr long ↦ rw long (switch-is_allowed _ _ _ r d h)
]

handle_security_access-is_allowed :
    (request : List ℕ) (r : Readings) (d : UdsDispatcher)
    → IsInSession d.session
    → IsInSession (handle_security_access request r d).1.session
unfolding handle_security_access is_allowed
handle_security_access-is_allowed request r d h = ground arith

handle_tester_present-is_allowed :
    (request : List ℕ) (r : Readings) (d : UdsDispatcher)
    → IsInSession d.session
    → IsInSession (handle_tester_present request r d).1.session
unfolding handle_tester_present is_allowed
handle_tester_present-is_allowed request r d h = ground arith

ticked-is_allowed :
    (r : Readings) (d : UdsDispatcher)
    → is_allowed d.session default ≡ true
    → IsInSession d.session
    → IsInSession (ticked r d).session
ticked-is_allowed r d has_default h =
    tick-is_allowed r.ticked (touch r.touched d.session) (unfold touch is_allowed in has_default)
      (touch-is_allowed r.touched d.session h)

module _ {H : Type 0} (handler : ServiceHandler H) where
  -- What the dispatcher asks before it lets the handler run.
  pub record IsAdmitted (sid : ℕ) (more : List ℕ) (h : H) (d : UdsDispatcher) : Type 0 where
    pub supported : contains (handler.supported_sids h) sid ≡ true
    pub in_session : contains_session (handler.allowed_sessions h sid) d.session.current ≡ true
    pub unlocked :
        is_denied (handler.required_security_level h sid (second (sid ∷ more))) d.security ≡ false

  -- Why it is not admitted: the first check that fails, with its response code.
  pub data Refusal (sid : ℕ) (more : List ℕ) (h : H) (d : UdsDispatcher) : Nrc → Type 0 where
    unsupported :
        contains (handler.supported_sids h) sid ≡ false → Refusal sid more h d service_not_supported
    wrong_session :
        contains (handler.supported_sids h) sid ≡ true
        → contains_session (handler.allowed_sessions h sid) d.session.current ≡ false
        → Refusal sid more h d conditions_not_correct
    locked :
        contains (handler.supported_sids h) sid ≡ true
        → contains_session (handler.allowed_sessions h sid) d.session.current ≡ true
        → is_denied (handler.required_security_level h sid (second (sid ∷ more))) d.security ≡ true
        → Refusal sid more h d security_access_denied

  -- A request either passes all checks, of its SID, of the session and of the security level, and
  -- is served; or it is refused with the response code of the first check that fails, and then only
  -- the session timer was looked at, which may have ended the session.
  pub process_gated :
      (sid : ℕ) (more : List ℕ) (r : Readings) (h : H) (d : UdsDispatcher)
      → (IsAdmitted sid more h (ticked r d)
          × (process handler (sid ∷ more) r h d ≡ serve handler sid (sid ∷ more) r h (ticked r d)))
        ⊎ ((nrc : Nrc) × Refusal sid more h (ticked r d) nrc
            × (process handler (sid ∷ more) r h d ≡ (Nrc.response nrc sid, h, ticked r d)))
  unfolding process
  process_gated sid more r h d = elim (Bool-cases (contains (handler.supported_sids h) sid)) [
    | inr no_sid ↦ inr (service_not_supported, unsupported no_sid, rw no_sid refl)
    | inl sid_ok ↦
        elim (Bool-cases
          (contains_session (handler.allowed_sessions h sid) (ticked r d).session.current)) [
            | inr no_session ↦ inr (
              conditions_not_correct,
              wrong_session sid_ok no_session,
              rw (sid_ok, no_session) refl,
            )
            | inl session_ok ↦
                elim (Bool-cases (
                  is_denied (handler.required_security_level h sid (second (sid ∷ more)))
                    d.security)) [
                      | inl denied ↦ inr (
                        security_access_denied,
                        locked sid_ok session_ok denied,
                        rw (sid_ok, session_ok, denied) refl,
                      )
                      | inr free ↦ inl (
                        record { supported = sid_ok; in_session = session_ok; unlocked = free },
                        rw (sid_ok, session_ok, free) refl,
                      )
                    ]
          ]
  ]

  -- The session that a handler leaves is one of those that are allowed.
  abbrev pub KeepsSession : Type 0
  KeepsSession =
      (h : H) (sid : ℕ) (request : List ℕ) (d : UdsDispatcher)
      → IsInSession d.session
      → IsInSession (handler.handle h sid request d.session d.security).2

  serve-is_allowed :
      (sid : ℕ) (request : List ℕ) (r : Readings) (h : H) (d : UdsDispatcher)
      → KeepsSession
      → IsInSession d.session
      → IsInSession (serve handler sid request r h d).2.session
  unfolding serve
  serve-is_allowed sid request r h d keeps before = elim (Bool-cases (sid == 0x10)) [
    | inl dsc ↦ rw dsc (handle_dsc-is_allowed request r d before)
    | inr e ↦ elim (Bool-cases (sid == 0x27)) [
      | inl access ↦ rw (e, access) (handle_security_access-is_allowed request r d before)
      | inr e' ↦ elim (Bool-cases (sid == 0x3E)) [
        | inl present ↦ rw (e, e', present) (handle_tester_present-is_allowed request r d before)
        | inr e'' ↦ rw (e, e', e'') (keeps h sid request d before)
      ]
    ]
  ]

  -- The current session is always an allowed one: every request keeps it so, where the default
  -- session is allowed and the handler does not itself leave the dispatcher in another session.
  pub process-is_allowed :
      (request : List ℕ) (r : Readings) (h : H) (d : UdsDispatcher)
      → KeepsSession
      → is_allowed d.session default ≡ true
      → IsInSession d.session
      → IsInSession (process handler request r h d).2.session
  process-is_allowed [] r h d keeps has_default before =
      unfold process in ticked-is_allowed r d has_default before
  process-is_allowed (sid ∷ more) r h d keeps has_default before =
      elim (process_gated sid more r h d) [
        | inl (admitted, served) ↦ rw served (
            serve-is_allowed sid (sid ∷ more) r h (ticked r d) keeps
              (ticked-is_allowed r d has_default before))
        | inr (nrc, reason, refused) ↦ rw refused (ticked-is_allowed r d has_default before)
      ]
