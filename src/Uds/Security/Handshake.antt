-- ===== src/Uds/Security/Handshake.antt =====
-- flxc1000-uds/src/security.rs: what unlocks a level.
use flxc1000_rpi.Prelude.{
  ℕ, ◌+◌, ◌-◌, ◌%◌, ◌<◌, ◌≡◌, ◌≢◌, refl, inl, inr, true, false, ◌==◌, if◌then◌else◌, Option-cases,
  none, some, List, length, arith,
}
use flxc1000_rpi.Bytes.{IsU32, byte_at, u32_to_be_bytes, u32_from_be_bytes}
use flxc1000_rpi.Bytes.BigEndian.{u32_round_trip}
use flxc1000_rpi.Bytes.Bitwise.{has_bit-insert, bit_xor-lt}
use flxc1000_rpi.Uds.Nrc.{ok, err, invalid_key, exceeded_number_of_attempts}
use flxc1000_rpi.Uds.Session.{from_millis}
use flxc1000_rpi.Uds.Security.{
  SecurityState, draw_seed, lockout_duration_ms, is_unlocked, shift_of, calculate_key, request_seed,
  accept_key, submit_key,
}
use flxc1000_rpi.Uds.Security.Invariant.{IsSound, draw_seed_fits}

abbrev pub key_of : List ℕ → ℕ
key_of bytes =
    u32_from_be_bytes (byte_at bytes 0) (byte_at bytes 1) (byte_at bytes 2) (byte_at bytes 3)

-- What a tester answers to the four bytes of a seed.
abbrev pub answer_seed : ℕ → List ℕ → List ℕ
answer_seed level seed_bytes = u32_to_be_bytes (calculate_key (key_of seed_bytes) level)

-- A key unlocks what was locked only where a seed was handed out for the level below it, the key
-- has four bytes and is the key of that seed; and it unlocks only the levels that share the bit of
-- that level in the `u8`.
pub submit_key_unlocks_only :
    (level : ℕ) (key_bytes : List ℕ) (now other : ℕ) (s : SecurityState)
    → IsSound s
    → is_unlocked s other ≡ false
    → is_unlocked (submit_key level key_bytes now s).1 other ≡ true
    → (seed : ℕ) × (s.pending_seed ≡ some (level - 1, seed))
      × (length key_bytes ≡ 4)
      × (key_of key_bytes ≡ calculate_key seed (level - 1))
      × (shift_of other ≡ shift_of (level - 1))
unfolding submit_key is_unlocked
submit_key_unlocks_only level key_bytes now other s sound locked opened =
    let insert =
      has_bit-insert s.unlocked_levels (shift_of (level - 1)) (shift_of other) sound.levels_fit
        (omega arith) (omega arith) in
    elim (Option-cases s.pending_seed) [
      | inl e ↦ absurd (ground arith)
      | inr ((pending_level, seed), e) ↦
          (seed, ground arith, ground arith, ground arith, ground arith)
    ]

-- What a granted seed request for a locked level leaves behind.
request_seed_granted :
    (level now nanos sub_tick : ℕ) (s : SecurityState) {bytes : List ℕ} {s' : SecurityState}
    → request_seed level now nanos sub_tick s ≡ (ok bytes, s')
    → is_unlocked s' level ≡ false
    → (s'.pending_seed ≡ some (level, draw_seed nanos sub_tick))
      × (bytes ≡ u32_to_be_bytes (draw_seed nanos sub_tick))
      × (level % 2 ≡ 1)
      × (s'.unlocked_levels ≡ s.unlocked_levels)
unfolding request_seed is_unlocked
request_seed_granted level now nanos sub_tick s granted locked = ground arith

calculate_key_fits : (seed level : ℕ) → IsU32 seed → IsU32 (calculate_key seed level)
unfolding calculate_key
calculate_key_fits seed level h = bit_xor-lt 32 seed 0xDEAD_BEEF h (omega arith)

submit_right_key :
    (level seed later : ℕ) (s : SecurityState)
    → s.pending_seed ≡ some (level, seed)
    → level % 2 ≡ 1
    → IsU32 seed
    → submit_key (level + 1) (answer_seed level (u32_to_be_bytes seed)) later s
      ≡ accept_key level (record s { pending_seed = none })
unfolding submit_key
submit_right_key level seed later s pending odd h =
    let back : key_of (u32_to_be_bytes seed) ≡ seed = u32_round_trip seed h in
    let again : key_of (u32_to_be_bytes (calculate_key seed level)) ≡ calculate_key seed level =
      u32_round_trip _ (calculate_key_fits seed level h) in
    let below : level + 1 - 1 ≡ level = omega arith in rw (back, pending) (ground arith)

-- The exchange succeeds: where a seed is granted for a level that is still locked, the key computed
-- from the bytes of the answer and sent for the next level unlocks the level, clears the count of
-- failures, and is accepted at any later time.
pub handshake_unlocks :
    (level now nanos sub_tick later : ℕ) (s : SecurityState) {bytes : List ℕ} {s' : SecurityState}
    → IsSound s
    → IsU32 nanos
    → IsU32 sub_tick
    → request_seed level now nanos sub_tick s ≡ (ok bytes, s')
    → is_unlocked s' level ≡ false
    → let (result, after) = submit_key (level + 1) (answer_seed level bytes) later s' in
      (result ≡ ok tt) × (is_unlocked after level ≡ true) × (after.failed_attempts ≡ 0)
unfolding is_unlocked
handshake_unlocks level now nanos sub_tick later s {bytes} {s'} sound hn ht granted locked =
    let (pending, same_bytes, odd, same_levels) =
      request_seed_granted level now nanos sub_tick s granted locked in
    let (_, fits) = draw_seed_fits nanos sub_tick hn ht in
    let accepted = submit_right_key level (draw_seed nanos sub_tick) later s' pending odd fits in
    let insert =
      has_bit-insert s'.unlocked_levels (shift_of level) (shift_of level)
        (rw same_levels sound.levels_fit) (omega arith) (omega arith) in
    rw (same_bytes, accepted) (unfold accept_key in (refl, ground arith, refl))

-- A wrong key of four bytes for a seed that was handed out is refused and counted, and the third
-- in a row locks the security access for ten seconds; no level changes and the seed is used up.
pub submit_key_wrong :
    (level seed : ℕ) (key_bytes : List ℕ) (now : ℕ) (s : SecurityState)
    → IsSound s
    → s.pending_seed ≡ some (level - 1, seed)
    → level % 2 ≡ 0
    → 0 < level
    → length key_bytes ≡ 4
    → key_of key_bytes ≢ calculate_key seed (level - 1)
    → submit_key level key_bytes now s ≡ (
        if s.failed_attempts == 2
        then (
          err exceeded_number_of_attempts,
          record s {
            pending_seed = none;
            failed_attempts = 3;
            lockout_until = some (now + from_millis lockout_duration_ms);
          },
        )
        else (
          err invalid_key,
          record s { pending_seed = none; failed_attempts = s.failed_attempts + 1 },
        ))
unfolding submit_key
submit_key_wrong level seed key_bytes now s sound pending even pos four wrong = ground arith
