-- ===== src/Uds/Dispatcher/History.antt =====
-- flxc1000-uds/src/dispatcher.rs and security.rs: what an observer of the requests and the answers
-- knows of the security access. It is a description of the bytes alone.
use flxc1000_rpi.Prelude.{
  ℕ, suc, ◌%◌, ◌<◌, ◌≡◌, ◌⊎◌, bit_and, ltb, ◌==◌, Bool, true, false, not, ◌&&◌, ◌||◌, List, [], ◌∷◌,
  length,
}
use flxc1000_rpi.Bytes.{byte_at, u32_to_be_bytes}
use flxc1000_rpi.Uds.Session.{Session, default, session_eq}
use flxc1000_rpi.Uds.Security.{calculate_key, shift_of}
use flxc1000_rpi.Uds.Security.Handshake.{key_of}

-- A request, the session in which it was looked at, and the answer. A history has the newest first.
pub record Exchange : Type 0 where
  pub session : Session
  pub request : List ℕ
  pub response : List ℕ

abbrev pub is_negative : Exchange → Bool
is_negative x = byte_at x.response 0 == 0x7F

-- The codes of the checks that come before the key is looked at.
abbrev pub is_early : ℕ → Bool
is_early code = code == 0x11 || code == 0x12 || code == 0x22 || code == 0x33

-- An exchange that neither hands out a seed nor uses one up.
abbrev pub leaves_seed : Exchange → Bool
leaves_seed x =
    not (byte_at x.request 0 == 0x27)
    || is_negative x
      && (ltb (length x.request) 2
          || byte_at x.request 1 % 2 == 1
          || is_early (byte_at x.response 2))

-- A change to the default session from another one.
abbrev pub closes : Exchange → Bool
closes x =
    byte_at x.request 0 == 0x10
    && bit_and (byte_at x.request 1) 0x7F == 0x01
    && not (session_eq x.session default)
    && not (is_negative x)

pub record Grants (level seed : ℕ) (x : Exchange) : Type 0 where
  pub more : List ℕ
  pub asked : x.request ≡ 0x27 ∷ level ∷ more
  pub answered : x.response ≡ 0x67 ∷ level ∷ u32_to_be_bytes seed
  pub not_zero : 0 < seed

-- A seed that waits for its key: nothing came since that used it up.
abbrev pub Pending : ℕ → ℕ → List Exchange → Type 0
Pending level seed [] = ⊥
Pending level seed (x ∷ log) =
    Grants level seed x ⊎ ((leaves_seed x ≡ true) × Pending level seed log)

-- An accepted key: it is the key of the seed that waited, in four bytes, and the level is that of
-- the seed or shares its bit.
pub record Unlocks (level : ℕ) (x : Exchange) (log : List Exchange) : Type 0 where
  pub seed_level : ℕ
  pub seed : ℕ
  pub key : List ℕ
  pub asked : x.request ≡ 0x27 ∷ suc seed_level ∷ key
  pub accepted : x.response ≡ 0x67 ∷ suc seed_level ∷ []
  pub waited : Pending seed_level seed log
  pub four : length key ≡ 4
  pub right : key_of key ≡ calculate_key seed seed_level
  pub shares : shift_of level ≡ shift_of seed_level

-- A level for which a key was accepted, with no change to the default session since.
abbrev pub Opened : ℕ → List Exchange → Type 0
Opened level [] = ⊥
Opened level (x ∷ log) = Unlocks level x log ⊎ ((closes x ≡ false) × Opened level log)
