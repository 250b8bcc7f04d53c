-- ===== src/Ace/Config.antt =====
-- The configurations that flxc1000-app/src/main.rs and flxc1000-boot/src/main.rs give to their UDS
-- servers, as the calls of the builder that the source makes; what ace-server does with them is
-- not modelled.
use flxc1000_rpi.Prelude.{ℕ, ◌==◌, ◌||◌, Bool, true, false, List, [], ◌∷◌}
use flxc1000_rpi.Ace.{Result, ok, err}

-- The constructors of `ServiceConfig`: the service, its sessions and, where it is secured, its level.
pub data ServiceConfig : Type 0 where
  new : ℕ → List ℕ → ServiceConfig
  secured : ℕ → List ℕ → ℕ → ServiceConfig

-- The constructors of `DidConfig`: the identifier and the sessions for reading, and for writing.
pub data DidConfig : Type 0 where
  read_only : ℕ → List ℕ → DidConfig
  read_write : ℕ → List ℕ → List ℕ → DidConfig

pub data SessionConfig : Type 0 where
  default_session programming_session extended_session : SessionConfig

pub record SecurityLevelConfig : Type 0 where
  pub level : ℕ
  pub max_attempts : ℕ
  pub lockout_duration : ℕ  -- seconds
  pub seed_length : ℕ
  pub key_length : ℕ

pub data Setting : Type 0 where
  with_session : SessionConfig → Setting
  with_service : ServiceConfig → Setting
  with_did : DidConfig → Setting
  with_security_level : SecurityLevelConfig → Setting

-- The two addresses given to `ServerConfig::new`, and the calls that follow.
pub record ServerConfig : Type 0 where
  pub physical : ℕ
  pub functional : ℕ
  pub settings : List Setting

-- What the settings name.
abbrev pub sid_of : ServiceConfig → ℕ
sid_of (new sid sessions) = sid
sid_of (secured sid sessions level) = sid

abbrev pub names_service : ℕ → Setting → Bool
names_service sid (with_service s) = sid == sid_of s
names_service sid (with_session s) = false
names_service sid (with_did d) = false
names_service sid (with_security_level l) = false

abbrev pub names_did : ℕ → Setting → Bool
names_did did (with_did (read_only d sessions)) = did == d
names_did did (with_did (read_write d sessions writers)) = did == d
names_did did (with_session s) = false
names_did did (with_service s) = false
names_did did (with_security_level l) = false

abbrev pub names_writable : ℕ → Setting → Bool
names_writable did (with_did (read_only d sessions)) = false
names_writable did (with_did (read_write d sessions writers)) = did == d
names_writable did (with_session s) = false
names_writable did (with_service s) = false
names_writable did (with_security_level l) = false

abbrev pub names_level : ℕ → Setting → Bool
names_level level (with_security_level l) = level == l.level
names_level level (with_did d) = false
names_level level (with_session s) = false
names_level level (with_service s) = false

abbrev pub any : (Setting → Bool) → List Setting → Bool
any test [] = false
any test (x ∷ xs) = test x || any test xs

abbrev pub is_ok : {A : Type 0} → Result A → Bool
is_ok (ok a) = true
is_ok (err e) = false
