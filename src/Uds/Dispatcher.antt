-- ===== src/Uds/Dispatcher.antt =====
-- flxc1000-uds/src/dispatcher.rs: a UDS request from its bytes to the bytes of its answer.
pub mod Gate
pub mod Timer
pub mod Shape
pub mod History
pub mod Explained
pub mod Access
pub mod Runs
use flxc1000_rpi.Prelude.{
  ℕ, ◌+◌, ◌%◌, ◌^◌, bit_and, ltb, ◌==◌, if◌then◌else◌, Bool, true, false, not, ◌&&◌, ◌||◌, Option,
  none, some, List, [], ◌∷◌, ◌++◌, length, drop,
}
use flxc1000_rpi.Bytes.{byte_at}
use flxc1000_rpi.Uds.Nrc
use flxc1000_rpi.Uds.Nrc.{
  Nrc, service_not_supported, sub_function_not_supported,
  incorrect_message_length_or_invalid_format, conditions_not_correct, security_access_denied,
  Result, ok, err,
}
use flxc1000_rpi.Uds.Security
use flxc1000_rpi.Uds.Security.{SecurityState, is_unlocked, request_seed, submit_key}
use flxc1000_rpi.Uds.Session
use flxc1000_rpi.Uds.Session.{
  Session, default, session_eq, contains_session, from_millis, SessionState, is_allowed, touch,
  tick, transition,
}

-- The trait `ServiceHandler`, for a handler with a state in `H`.
pub record ServiceHandler (H : Type 0) : Type 0 where
  pub supported_sids : H → List ℕ
  pub allowed_sessions : H → ℕ → List Session
  pub required_security_level : H → ℕ → Option ℕ → Option ℕ
  pub handle :
      H
      → ℕ
      → List ℕ
      → SessionState
      → SecurityState
      → Result (List ℕ) × H × SessionState × SecurityState

pub record UdsDispatcher : Type 0 where
  pub session : SessionState
  pub security : SecurityState

unfoldable pub new : List Session → ℕ → UdsDispatcher
unfolding Session.new Security.new
new allowed_sessions now = record {
  session = Session.new allowed_sessions (from_millis 5000) now;
  security = Security.new;
}

-- The clock readings of one request, in the order in which they are made: for `touch`, for `tick`,
-- by the service itself, and those that a seed is drawn from.
pub record Readings : Type 0 where
  pub touched : ℕ
  pub ticked : ℕ
  pub served : ℕ
  pub nanos : ℕ
  pub sub_tick : ℕ

-- `slice.contains(&x)`, and `slice.get(1).copied()`.
abbrev pub contains : List ℕ → ℕ → Bool
contains [] x = false
contains (y ∷ ys) x = y == x || contains ys x

abbrev pub second : List ℕ → Option ℕ
second [] = none
second (a ∷ []) = none
second (a ∷ b ∷ bytes) = some b

-- The part of `handle_dsc` behind the test of the length, for the session that the sub-function
-- names.
unfoldable pub switch_session :
    Bool → ℕ → Option Session → Readings → UdsDispatcher → List ℕ × UdsDispatcher
unfolding Nrc.response is_allowed transition Security.reset
switch_session suppress subfunc none r d = (Nrc.response sub_function_not_supported 0x10, d)
switch_session suppress subfunc (some session) r d =
    if not (is_allowed d.session session)
    then (Nrc.response sub_function_not_supported 0x10, d)
    else (let prev = d.session.current in
        let moved = record d { session = (transition session r.served d.session).1 } in
        (
          if suppress then [] else 0x50 ∷ subfunc ∷ 0x00 ∷ 0x32 ∷ 0x01 ∷ 0xF4 ∷ [],
          if not (session_eq prev session) && session_eq session default
              then record moved { security = Security.reset d.security }
              else moved,
        ))

unfoldable pub handle_dsc : List ℕ → Readings → UdsDispatcher → List ℕ × UdsDispatcher
unfolding Nrc.response Session.from_byte switch_session
handle_dsc request r d =
    if ltb (length request) 2
    then (Nrc.response incorrect_message_length_or_invalid_format 0x10, d)
    else (let subfunc = bit_and (byte_at request 1) 0x7F in
        let suppress = not (bit_and (byte_at request 1) 0x80 == 0) in
        switch_session suppress subfunc (Session.from_byte subfunc) r d)

abbrev pub seed_response : ℕ → Result (List ℕ) → List ℕ
seed_response subfunc (ok seed) = 0x67 ∷ subfunc ∷ seed
seed_response subfunc (err nrc) = Nrc.response nrc 0x27

abbrev pub key_response : ℕ → Result (Unit {0}) → List ℕ
key_response subfunc (ok a) = 0x67 ∷ subfunc ∷ []
key_response subfunc (err nrc) = Nrc.response nrc 0x27

unfoldable pub handle_security_access : List ℕ → Readings → UdsDispatcher → List ℕ × UdsDispatcher
unfolding Nrc.response
handle_security_access request r d =
    if ltb (length request) 2
    then (Nrc.response incorrect_message_length_or_invalid_format 0x27, d)
    else (let subfunc = byte_at request 1 in
        if subfunc % 2 == 1
        then (let (result, security) =
              request_seed subfunc r.served r.nanos r.sub_tick d.security in
            (seed_response subfunc result, record d { security = security }))
        else (let (result, security) = submit_key subfunc (drop 2 request) r.served d.security in
            (key_response subfunc result, record d { security = security })))

unfoldable pub handle_tester_present : List ℕ → Readings → UdsDispatcher → List ℕ × UdsDispatcher
unfolding Nrc.response touch
handle_tester_present request r d =
    if ltb (length request) 2
    then (Nrc.response incorrect_message_length_or_invalid_format 0x3E, d)
    else (let suppress = not (bit_and (byte_at request 1) 0x80 == 0) in
        let subfunc_value = bit_and (byte_at request 1) 0x7F in
        if not (subfunc_value == 0x00) then (Nrc.response sub_function_not_supported 0x3E, d) else (
          if suppress then [] else 0x7E ∷ 0x00 ∷ [],
          record d { session = touch r.served d.session },
        ))

-- `UdsDispatcher::tick`, which the owner calls from time to time.
unfoldable pub tick_session : ℕ → UdsDispatcher → UdsDispatcher
unfolding tick
tick_session now d = record d { session = tick now d.session }

-- The `sid + 0x40` of a `u8`, which wraps in the release profile.
abbrev pub handler_response : ℕ → Result (List ℕ) → List ℕ
handler_response sid (ok payload) = ((sid + 0x40) % 2 ^ 8) ∷ payload
handler_response sid (err nrc) = Nrc.response nrc sid

-- Whether the service needs a level that is locked.
unfoldable pub is_denied : Option ℕ → SecurityState → Bool
unfolding is_unlocked
is_denied none security = false
is_denied (some level) security = not (is_unlocked security level)

module _ {H : Type 0} (handler : ServiceHandler H) where
  unfoldable pub delegate : ℕ → List ℕ → H → UdsDispatcher → List ℕ × H × UdsDispatcher
  unfolding Nrc.response
  delegate sid request h d =
      let (result, h', session, security) = handler.handle h sid request d.session d.security in
      (handler_response sid result, h', record { session = session; security = security })

  -- The `match` on the SID.
  unfoldable pub serve : ℕ → List ℕ → Readings → H → UdsDispatcher → List ℕ × H × UdsDispatcher
  unfolding handle_dsc handle_security_access handle_tester_present delegate
  serve sid request r h d =
      if sid == 0x10
      then (let (resp, d') = handle_dsc request r d in (resp, h, d'))
      else if sid == 0x27
      then (let (resp, d') = handle_security_access request r d in (resp, h, d'))
      else if sid == 0x3E
      then (let (resp, d') = handle_tester_present request r d in (resp, h, d'))
      else delegate sid request h d

  -- What `process` does behind `touch` and `tick`.
  unfoldable pub process_ticked : List ℕ → Readings → H → UdsDispatcher → List ℕ × H × UdsDispatcher
  unfolding Nrc.response serve is_denied
  process_ticked [] r h d = (Nrc.response incorrect_message_length_or_invalid_format 0x00, h, d)
  process_ticked (sid ∷ more) r h d =
      if not (contains (handler.supported_sids h) sid)
      then (Nrc.response service_not_supported sid, h, d)
      else if not (contains_session (handler.allowed_sessions h sid) d.session.current)
      then (Nrc.response conditions_not_correct sid, h, d)
      else if is_denied (handler.required_security_level h sid (second (sid ∷ more))) d.security
      then (Nrc.response security_access_denied sid, h, d)
      else serve sid (sid ∷ more) r h d

  unfoldable pub process : List ℕ → Readings → H → UdsDispatcher → List ℕ × H × UdsDispatcher
  unfolding touch tick process_ticked
  process request r h d =
      process_ticked request r h (record d { session = tick r.ticked (touch r.touched d.session) })
