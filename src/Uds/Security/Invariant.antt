-- ===== src/Uds/Security/Invariant.antt =====
-- flxc1000-uds/src/security.rs: what holds of the security state between two requests.
use flxc1000_rpi.Prelude.{ℕ, ◌-◌, ◌%◌, ◌<◌, ◌≡◌, Option, none, some, List, arith, bit_xor}
use flxc1000_rpi.Bytes.{IsU8, IsU32}
use flxc1000_rpi.Bytes.Bitwise.{bit_or-lt, bit_xor-lt}
use flxc1000_rpi.Uds.Security.{
  max_attempts, SecurityState, new, reset, draw_seed, issue_seed, request_seed, submit_key,
  shift_of,
}

-- A lockout stands exactly while the attempts are used up, and leaves no seed to answer.
abbrev pub LockoutFits : Option ℕ → SecurityState → Type 0
LockoutFits none s = s.failed_attempts < max_attempts
LockoutFits (some until) s = (s.failed_attempts ≡ max_attempts) × (s.pending_seed ≡ none)

-- A seed that waits for its key is for a seed level, is not zero and fits 32 bits.
abbrev pub SeedFits : Option (ℕ × ℕ) → Type 0
SeedFits none = Unit {0}
SeedFits (some (level, seed)) = IsU8 level × (level % 2 ≡ 1) × (0 < seed) × IsU32 seed

pub record IsSound (s : SecurityState) : Type 0 where
  pub levels_fit : IsU8 s.unlocked_levels
  pub lockout_fits : LockoutFits s.lockout_until s
  pub seed_fits : SeedFits s.pending_seed

pub new-IsSound : IsSound new
unfolding new
new-IsSound = ground arith

pub reset-IsSound : (s : SecurityState) → IsSound s → IsSound (reset s)
unfolding reset
reset-IsSound s h = ground arith

pub draw_seed_fits :
    (nanos sub_tick : ℕ)
    → IsU32 nanos
    → IsU32 sub_tick
    → (0 < draw_seed nanos sub_tick) × IsU32 (draw_seed nanos sub_tick)
unfolding draw_seed
draw_seed_fits nanos sub_tick hn ht =
    ground (
      arith,
      bit_xor-lt 32 nanos sub_tick hn ht,
      bit_xor-lt 32 (bit_xor nanos sub_tick) 0x1234_5678,
    )

issue_seed-IsSound :
    (level nanos sub_tick : ℕ) (s : SecurityState)
    → IsU8 level
    → level % 2 ≡ 1
    → IsU32 nanos
    → IsU32 sub_tick
    → s.lockout_until ≡ none
    → IsSound s
    → IsSound (issue_seed level nanos sub_tick s).1
unfolding issue_seed
issue_seed-IsSound level nanos sub_tick s hl odd hn ht free h =
    let fits = draw_seed_fits nanos sub_tick hn ht in ground arith

pub request_seed-IsSound :
    (level now nanos sub_tick : ℕ) (s : SecurityState)
    → IsU8 level
    → IsU32 nanos
    → IsU32 sub_tick
    → IsSound s
    → IsSound (request_seed level now nanos sub_tick s).1
unfolding request_seed
request_seed-IsSound level now nanos sub_tick s hl hn ht h =
    ground (arith, draw_seed_fits nanos sub_tick hn ht)

pub submit_key-IsSound :
    (level : ℕ) (key_bytes : List ℕ) (now : ℕ) (s : SecurityState)
    → IsSound s
    → IsSound (submit_key level key_bytes now s).1
unfolding submit_key
submit_key-IsSound level key_bytes now s h =
    ground (arith, bit_or-lt s.unlocked_levels (shift_of (level - 1)))
