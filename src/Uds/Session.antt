-- ===== src/Uds/Session.antt =====
-- flxc1000-uds/src/session.rs: the diagnostic session and its S3 timer.
use flxc1000_rpi.Prelude.{
  ℕ, ◌-◌, ◌*◌, ltb, ◌==◌, if◌then◌else◌, Bool, true, false, not, ◌&&◌, ◌||◌, Option, none, some,
  List, [], ◌∷◌,
}

pub data Session : Type 0 where
  default programming extended : Session

unfoldable pub from_byte : ℕ → Option Session
from_byte b =
    if b == 0x01
    then some default
    else if b == 0x02
    then some programming
    else if b == 0x03
    then some extended
    else none

-- The enum's discriminants.
unfoldable pub byte : Session → ℕ
byte default = 0x01
byte programming = 0x02
byte extended = 0x03

-- The derived `PartialEq`, and `contains` of a slice of sessions.
abbrev pub session_eq : Session → Session → Bool
session_eq default default = true
session_eq programming programming = true
session_eq extended extended = true
session_eq _ _ = false

abbrev pub contains_session : List Session → Session → Bool
contains_session [] s = false
contains_session (x ∷ xs) s = session_eq x s || contains_session xs s

-- `Duration::from_millis`
abbrev pub from_millis : ℕ → ℕ
from_millis ms = ms * 1_000_000

pub record SessionState : Type 0 where
  pub current : Session
  pub allowed : List Session
  pub s3_timeout : ℕ
  pub last_activity : ℕ

unfoldable pub new : List Session → ℕ → ℕ → SessionState
new allowed s3_timeout now = record {
  current = default;
  allowed = allowed;
  s3_timeout = s3_timeout;
  last_activity = now;
}

unfoldable pub is_allowed : SessionState → Session → Bool
is_allowed s session = contains_session s.allowed session

unfoldable pub touch : ℕ → SessionState → SessionState
touch now s = record s { last_activity = now }

unfoldable pub transition : Session → ℕ → SessionState → Bool × SessionState
unfolding is_allowed touch
transition session now s =
    if is_allowed s session then (true, touch now (record s { current = session })) else (false, s)

-- `elapsed` saturates at zero, as `-` does.
unfoldable pub tick : ℕ → SessionState → SessionState
tick now s =
    if not (session_eq s.current default) && ltb s.s3_timeout (now - s.last_activity)
    then record s { current = default }
    else s
