-- ===== src/Uds/Security.antt =====
-- flxc1000-uds/src/security.rs: the seed and key exchange. Arithmetic is that of the release
-- profile, in which `+` and `<<` on a `u8` wrap; a build with overflow checks panics instead.
pub mod Invariant
pub mod Handshake
pub mod Lockout
pub mod Outcomes
use flxc1000_rpi.Prelude.{
  ℕ, ◌+◌, ◌-◌, ◌*◌, ◌%◌, ◌^◌, bit_and, bit_or, bit_xor, ltb, leb, ◌==◌, if◌then◌else◌, Bool, not,
  ◌&&◌, Option, none, some, List, [], ◌∷◌, length,
}
use flxc1000_rpi.Bytes.{byte_at, u32_to_be_bytes, u32_from_be_bytes}
use flxc1000_rpi.Bytes.Bitwise.{has_bit}
use flxc1000_rpi.Uds.Nrc.{
  Nrc, sub_function_not_supported, incorrect_message_length_or_invalid_format,
  request_sequence_error, invalid_key, exceeded_number_of_attempts, Result, ok, err,
}
use flxc1000_rpi.Uds.Session.{from_millis}

abbrev pub max_attempts : ℕ
max_attempts = 3

abbrev pub lockout_duration_ms : ℕ
lockout_duration_ms = 10_000

pub record SecurityState : Type 0 where
  pub unlocked_levels : ℕ  -- u8, a bit for each level
  pub pending_seed : Option (ℕ × ℕ)  -- level and seed
  pub failed_attempts : ℕ  -- u8
  pub lockout_until : Option ℕ

unfoldable pub new : SecurityState
new = record { unlocked_levels = 0; pending_seed = none; failed_attempts = 0; lockout_until = none }

-- The distance of a shift of a `u8` is taken modulo 8.
abbrev pub shift_of : ℕ → ℕ
shift_of level = level % 8

unfoldable pub is_unlocked : SecurityState → ℕ → Bool
is_unlocked s level = has_bit s.unlocked_levels (shift_of level)

unfoldable pub reset : SecurityState → SecurityState
reset s = record s { unlocked_levels = 0; pending_seed = none }

unfoldable pub is_seed_level : ℕ → Bool
is_seed_level level = level % 2 == 1

unfoldable pub is_key_level : ℕ → Bool
is_key_level level = level % 2 == 0 && ltb 0 level

unfoldable pub calculate_key : ℕ → ℕ → ℕ
calculate_key seed level = bit_xor seed 0xDEAD_BEEF

-- The clocks read while the seed is drawn: the low 32 bits of the nanoseconds since `now`, and the
-- nanoseconds of the system time within its second.
unfoldable pub draw_seed : ℕ → ℕ → ℕ
draw_seed nanos sub_tick =
    let seed = bit_xor (bit_xor nanos sub_tick) 0x1234_5678 in
    if seed == 0 then 0x0000_0001 else seed

-- The part of `request_seed` behind the lockout.
unfoldable pub issue_seed : ℕ → ℕ → ℕ → SecurityState → Result (List ℕ) × SecurityState
unfolding is_unlocked draw_seed
issue_seed level nanos sub_tick s =
    if is_unlocked s level
    then (ok (0x00 ∷ 0x00 ∷ 0x00 ∷ 0x00 ∷ []), record s { pending_seed = none })
    else (let seed = draw_seed nanos sub_tick in
        (ok (u32_to_be_bytes seed), record s { pending_seed = some (level, seed) }))

abbrev pub lockout_check :
    Option ℕ → ℕ → ℕ → ℕ → ℕ → SecurityState → Result (List ℕ) × SecurityState
lockout_check none now level nanos sub_tick s = issue_seed level nanos sub_tick s
lockout_check (some until) now level nanos sub_tick s =
    if ltb now until
    then (err exceeded_number_of_attempts, s)
    else issue_seed level nanos sub_tick (record s { lockout_until = none; failed_attempts = 0 })

unfoldable pub request_seed : ℕ → ℕ → ℕ → ℕ → SecurityState → Result (List ℕ) × SecurityState
unfolding is_seed_level issue_seed
request_seed level now nanos sub_tick s =
    if not (is_seed_level level)
    then (err sub_function_not_supported, s)
    else lockout_check s.lockout_until now level nanos sub_tick s

-- The end of `submit_key`: `accept_key` where the keys agree, `refuse_key` where they do not.
unfoldable pub accept_key : ℕ → SecurityState → Result (Unit {0}) × SecurityState
accept_key seed_level s = (
  ok tt,
  record s {
    unlocked_levels = bit_or s.unlocked_levels (2 ^ shift_of seed_level);
    failed_attempts = 0;
  },
)

unfoldable pub refuse_key : ℕ → SecurityState → Result (Unit {0}) × SecurityState
refuse_key now s =
    let failed = record s { failed_attempts = (s.failed_attempts + 1) % 2 ^ 8 } in
    if leb max_attempts failed.failed_attempts
    then (
      err exceeded_number_of_attempts,
      record failed { lockout_until = some (now + from_millis lockout_duration_ms) },
    )
    else (err invalid_key, failed)

unfoldable pub check_key :
    ℕ → List ℕ → ℕ → Option (ℕ × ℕ) → SecurityState → Result (Unit {0}) × SecurityState
unfolding calculate_key accept_key refuse_key
check_key seed_level key_bytes now none s = (err request_sequence_error, s)
check_key seed_level key_bytes now (some (pending_level, seed)) s =
    if not (pending_level == seed_level)
    then (err request_sequence_error, s)
    else if not (length key_bytes == 4)
    then (err incorrect_message_length_or_invalid_format, s)
    else (let submitted_key =
          u32_from_be_bytes (byte_at key_bytes 0) (byte_at key_bytes 1) (byte_at key_bytes 2)
            (byte_at key_bytes 3) in
        if submitted_key == calculate_key seed seed_level
        then accept_key seed_level s
        else refuse_key now s)

-- `self.pending_seed.take()` empties the field whatever follows.
unfoldable pub submit_key : ℕ → List ℕ → ℕ → SecurityState → Result (Unit {0}) × SecurityState
unfolding is_key_level check_key
submit_key level key_bytes now s =
    if not (is_key_level level)
    then (err sub_function_not_supported, s)
    else check_key (level - 1) key_bytes now s.pending_seed (record s { pending_seed = none })
