-- ===== src/Uds/Tests.antt =====
-- The UDS layer on concrete requests.
use flxc1000_rpi.Prelude.{
  ◌↔◌, ℕ, suc, ◌+◌, ◌-◌, ◌<◌, ◌≡◌, ◌≢◌, refl, ◌⊎◌, true, false, none, some, List, [], ◌∷◌,
  if◌then◌else◌, ◌==◌, bit_and, arith,
}
use flxc1000_rpi.Uds.Nrc
use flxc1000_rpi.Uds.Nrc.{
  Nrc, ok, err, invalid_key, exceeded_number_of_attempts, request_out_of_range,
}
use flxc1000_rpi.Uds.Session
use flxc1000_rpi.Uds.Session.{
  Session, default, programming, extended, SessionState, from_millis, is_allowed, tick, touch,
}
use flxc1000_rpi.Uds.Security
use flxc1000_rpi.Uds.Security.{
  SecurityState, lockout_duration_ms, is_unlocked, shift_of, calculate_key, request_seed,
  submit_key,
}
use flxc1000_rpi.Uds.Security.Invariant.{IsSound, new-IsSound}
use flxc1000_rpi.Uds.Security.Handshake.{key_of, answer_seed, submit_key_wrong, handshake_unlocks}
use flxc1000_rpi.Uds.Security.Lockout.{
  Call, call_request_seed, call_submit_key, call_reset, run, run-IsSound, run_locked_out,
}
use flxc1000_rpi.Uds.Dispatcher.{
  ServiceHandler, new, UdsDispatcher, Readings, handle_dsc, tick_session, serve, process_ticked,
  process,
}
use flxc1000_rpi.Uds.Dispatcher.History.{Opened}
use flxc1000_rpi.Uds.Dispatcher.Access.{IsPermitted, Reach-IsPermitted}
use flxc1000_rpi.Uds.Dispatcher.Runs.{Run, ask, Reach, begin, asks, Reach-Opened_iff}
use flxc1000_rpi.Uds.Dispatcher.Gate.{
  ticked, IsAdmitted, Refusal, process_gated, IsInSession, process-is_allowed,
}
use flxc1000_rpi.Uds.Dispatcher.Timer.{
  process_keeps_session, tick_session_expires, handle_dsc_moves,
}
use flxc1000_rpi.Uds.Dispatcher.Shape.{IsAnswer, process-IsAnswer}

abbrev granted : SecurityState
granted = record {
  unlocked_levels = 0;
  pending_seed = some (3, 0x1234_567B);
  failed_attempts = 0;
  lockout_until = none;
}

granted-IsSound : IsSound granted
granted-IsSound = ground arith

seed_granted : request_seed 3 0 1 2 Security.new ≡ (ok (0x12 ∷ 0x34 ∷ 0x56 ∷ 0x7B ∷ []), granted)
unfolding request_seed Security.new
seed_granted = refl

granted_locked : is_unlocked granted 3 ≡ false
unfolding is_unlocked
granted_locked = refl

handshake_unlocks_example :
    let (result, after) = submit_key 4 (answer_seed 3 (0x12 ∷ 0x34 ∷ 0x56 ∷ 0x7B ∷ [])) 9 granted in
    (result ≡ ok tt) × (is_unlocked after 3 ≡ true) × (after.failed_attempts ≡ 0)
handshake_unlocks_example =
    handshake_unlocks 3 0 1 2 9 Security.new new-IsSound (omega arith) (omega arith) seed_granted
      granted_locked

abbrev right_key : List ℕ
right_key = 0xCC ∷ 0x99 ∷ 0xE8 ∷ 0x94 ∷ []

right_key_unlocks : is_unlocked (submit_key 4 right_key 9 granted).1 3 ≡ true
unfolding submit_key is_unlocked
right_key_unlocks = refl

-- In the release profile the levels 3 and 11 share a bit.
level_alias : is_unlocked (submit_key 4 right_key 9 granted).1 11 ≡ true
unfolding submit_key is_unlocked
level_alias = refl

abbrev wrong_key : List ℕ
wrong_key = 0 ∷ 0 ∷ 0 ∷ 0 ∷ []

wrong_key_differs : key_of wrong_key ≢ calculate_key 0x1234_567B (4 - 1)
unfolding calculate_key
wrong_key_differs = omega arith

submit_key_wrong_example : submit_key 4 wrong_key 9 granted ≡ (
    if granted.failed_attempts == 2
    then (
      err exceeded_number_of_attempts,
      record granted {
        pending_seed = none;
        failed_attempts = 3;
        lockout_until = some (9 + from_millis lockout_duration_ms);
      },
    )
    else (
      err invalid_key,
      record granted { pending_seed = none; failed_attempts = granted.failed_attempts + 1 },
    ))
submit_key_wrong_example =
    submit_key_wrong 4 0x1234_567B wrong_key 9 granted granted-IsSound refl refl (omega arith) refl
      wrong_key_differs

abbrev try_once : List Call
try_once = call_request_seed 3 0 1 2 ∷ call_submit_key 4 wrong_key 9 ∷ []

run-IsSound_example : IsSound (run Security.new try_once)
run-IsSound_example = run-IsSound try_once (omega arith)

abbrev shut_out : SecurityState
shut_out = record {
  unlocked_levels = 2;
  pending_seed = none;
  failed_attempts = 3;
  lockout_until = some 1000;
}

shut_out-IsSound : IsSound shut_out
shut_out-IsSound = ground arith

abbrev insist : List Call
insist = call_request_seed 3 999 1 2 ∷ call_submit_key 4 right_key 999 ∷ call_reset ∷ []

run_locked_out_example :
    ((run shut_out insist).lockout_until ≡ some 1000)
    × (((run shut_out insist).unlocked_levels ≡ 2) ⊎ ((run shut_out insist).unlocked_levels ≡ 0))
run_locked_out_example = run_locked_out 1000 shut_out insist shut_out-IsSound refl (omega arith)

-- A handler without a state that knows one service, 0x22, behind level 3 in the extended session.
abbrev reader : ServiceHandler (Unit {0})
reader = record {
  supported_sids = λ h. 0x10 ∷ 0x22 ∷ 0x27 ∷ 0x3E ∷ [];
  allowed_sessions = λ h sid. default ∷ extended ∷ [];
  required_security_level = λ h sid subfunc. if sid == 0x22 then some 3 else none;
  handle = λ h sid request session security. (ok (0xAB ∷ []), h, session, security);
}

abbrev late : Readings
late = record {
  touched = 90_000_000_000;
  ticked = 90_000_000_001;
  served = 90_000_000_002;
  nanos = 1;
  sub_tick = 2;
}

-- In the extended session with level 3 unlocked, last active 90 seconds before `late`.
abbrev idle : UdsDispatcher
idle = record {
  session = record {
    current = extended;
    allowed = default ∷ extended ∷ [];
    s3_timeout = 5_000_000_000;
    last_activity = 0;
  };
  security = record {
    unlocked_levels = 8;
    pending_seed = none;
    failed_attempts = 0;
    lockout_until = none;
  };
}

-- The request is served, although the session has been idle for longer than its timeout.
served_late : (process reader (0x22 ∷ []) late tt idle).0 ≡ 0x62 ∷ 0xAB ∷ []
unfolding process
served_late = refl

process_keeps_session_example :
    process reader (0x22 ∷ []) late tt idle
    ≡ process_ticked reader
        (0x22 ∷ [])
        late
        tt
        (record idle { session = record (idle.session) { last_activity = 90_000_000_000 } })
process_keeps_session_example = process_keeps_session reader (0x22 ∷ []) late tt idle (omega arith)

read_while_idle :
    (IsAdmitted reader 0x22 [] tt (ticked late idle)
      × (process reader (0x22 ∷ []) late tt idle
          ≡ serve reader 0x22 (0x22 ∷ []) late tt (ticked late idle)))
    ⊎ ((nrc : Nrc) × Refusal reader 0x22 [] tt (ticked late idle) nrc
        × (process reader (0x22 ∷ []) late tt idle ≡ (Nrc.response nrc 0x22, tt, ticked late idle)))
read_while_idle = process_gated reader 0x22 [] late tt idle

idle_allowed : (is_allowed idle.session default ≡ true) × IsInSession idle.session
unfolding is_allowed
idle_allowed = (refl, refl)

session-stays_allowed : IsInSession (process reader (0x10 ∷ 0x01 ∷ []) late tt idle).2.session
session-stays_allowed =
    process-is_allowed reader (0x10 ∷ 0x01 ∷ []) late tt idle (λ h sid request d before. before)
      idle_allowed.0 idle_allowed.1

process-IsAnswer_example :
    IsAnswer 0x3E (0x3E ∷ 0x80 ∷ []) (process reader (0x3E ∷ 0x80 ∷ []) late tt idle).0
process-IsAnswer_example = process-IsAnswer reader 0x3E (0x80 ∷ []) late tt idle

tick_session_expires_example :
    let after = tick_session 90_000_000_000 idle in
    ((after.session.current ≡ default) ↔ (
      (idle.session.current ≡ default)
      ⊎ (idle.session.s3_timeout < 90_000_000_000 - idle.session.last_activity)))
    × (after.session ≡ record (idle.session) { current = after.session.current })
    × ((after.session.current ≡ default) ⊎ (after.session ≡ idle.session))
    × (after.security ≡ idle.security)
tick_session_expires_example = tick_session_expires 90_000_000_000 idle

named_default : Session.from_byte (bit_and 0x81 0x7F) ≡ some default
unfolding Session.from_byte
named_default = refl

handle_dsc_moves_example :
    let after = (handle_dsc (0x10 ∷ 0x81 ∷ []) late idle).1 in
    (after.session ≡ record (idle.session) { current = default; last_activity = 90_000_000_002 })
    × (((◌≡◌ {A = Session} default default)
          × (idle.session.current ≢ default)
          × ((level : ℕ) → is_unlocked after.security level ≡ false)
          × (after.security.pending_seed ≡ none)
          × (after.security.failed_attempts ≡ 0)
          × (after.security.lockout_until ≡ none))
        ⊎ (((◌≢◌ {A = Session} default default) ⊎ (idle.session.current ≡ default))
            × (after.security ≡ idle.security)))
handle_dsc_moves_example = handle_dsc_moves 0x10 0x81 [] late idle named_default idle_allowed.0

-- A seed for level 3 is asked for, its key is accepted, and the service behind the level is served.
abbrev early : Readings
early = record { touched = 1; ticked = 2; served = 3; nanos = 1; sub_tick = 2 }

abbrev fresh : Run (Unit {0})
fresh = record { handler_state = tt; dispatcher = new (default ∷ extended ∷ []) 0; log = [] }

abbrev opened : Run (Unit {0})
opened = ask reader (0x27 ∷ 0x04 ∷ right_key) early (ask reader (0x27 ∷ 0x03 ∷ []) early fresh)

opened-Reach : Reach reader opened
opened-Reach = asks (0x27 ∷ 0x04 ∷ right_key) early (omega arith) (omega arith) (omega arith) (
    asks (0x27 ∷ 0x03 ∷ []) early (omega arith) (omega arith) (omega arith)
      (begin tt (default ∷ extended ∷ []) 0))

Reach-Opened_iff_example : (is_unlocked opened.dispatcher.security 3 ≡ true) ↔ Opened 3 opened.log
Reach-Opened_iff_example =
    Reach-Opened_iff reader (λ h sid request session security. refl) 3 opened-Reach

opened-unlocked : is_unlocked opened.dispatcher.security 3 ≡ true
unfolding process new Security.new is_unlocked request_seed submit_key
opened-unlocked = refl

-- A handler that counts the calls of a routine behind level 3.
abbrev counter : ServiceHandler ℕ
counter = record {
  supported_sids = λ n. 0x27 ∷ 0x31 ∷ [];
  allowed_sessions = λ n sid. default ∷ [];
  required_security_level = λ n sid subfunc. if sid == 0x31 then some 0x03 else none;
  handle = λ n sid request session security. (ok [], suc n, session, security);
}

abbrev counting : Run ℕ
counting = ask counter (0x27 ∷ 0x04 ∷ right_key) early (
    ask counter (0x27 ∷ 0x03 ∷ []) early
      (record { handler_state = 0; dispatcher = new (default ∷ []) 0; log = [] }))

counting-Reach : Reach counter counting
counting-Reach = asks (0x27 ∷ 0x04 ∷ right_key) early (omega arith) (omega arith) (omega arith) (
    asks (0x27 ∷ 0x03 ∷ []) early (omega arith) (omega arith) (omega arith)
      (begin 0 (default ∷ []) 0))

counted :
    (process counter (0x31 ∷ 0x01 ∷ []) early counting.handler_state counting.dispatcher).1
    ≢ counting.handler_state
unfolding process new Security.new is_unlocked request_seed submit_key
counted e = absurd (omega arith)

Reach-IsPermitted_example : IsPermitted counter 0x31 (0x01 ∷ []) early counting
Reach-IsPermitted_example =
    Reach-IsPermitted counter 0x31 (0x01 ∷ []) early (λ h sid request session security. refl)
      counting-Reach counted
