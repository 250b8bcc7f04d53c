-- ===== src/Uds/Security/Lockout.antt =====
-- flxc1000-uds/src/security.rs: any sequence of calls, in the lockout and outside it.
use flxc1000_rpi.Prelude.{ℕ, ◌<◌, ◌≡◌, ◌⊎◌, none, some, List, [], ◌∷◌, All, arith}
use flxc1000_rpi.Bytes.{IsU8, IsU32}
use flxc1000_rpi.Uds.Security.{SecurityState, max_attempts, new, reset, request_seed, submit_key}
use flxc1000_rpi.Uds.Security.Invariant.{
  IsSound, new-IsSound, reset-IsSound, request_seed-IsSound, submit_key-IsSound,
}

-- A call of one of the methods that change the state, with the clock readings that it makes.
pub data Call : Type 0 where
  call_request_seed : ℕ → ℕ → ℕ → ℕ → Call  -- level, now, nanos, sub_tick
  call_submit_key : ℕ → List ℕ → ℕ → Call  -- level, key_bytes, now
  call_reset : Call

unfoldable pub apply : SecurityState → Call → SecurityState
apply s (call_request_seed level now nanos sub_tick) = (request_seed level now nanos sub_tick s).1
apply s (call_submit_key level key_bytes now) = (submit_key level key_bytes now s).1
apply s call_reset = reset s

unfoldable pub run : SecurityState → List Call → SecurityState
run s [] = s
run s (c ∷ cs) = run (apply s c) cs

-- The arguments fit their Rust types.
abbrev pub IsCall : Call → Type 0
IsCall (call_request_seed level now nanos sub_tick) = IsU8 level × IsU32 nanos × IsU32 sub_tick
IsCall (call_submit_key level key_bytes now) = IsU8 level
IsCall call_reset = Unit {0}

apply-IsSound : (s : SecurityState) (c : Call) → IsCall c → IsSound s → IsSound (apply s c)
unfolding apply
apply-IsSound s (call_request_seed level now nanos sub_tick) (hl, hn, ht) h =
    request_seed-IsSound level now nanos sub_tick s hl hn ht h
apply-IsSound s (call_submit_key level key_bytes now) _ h =
    submit_key-IsSound level key_bytes now s h
apply-IsSound s call_reset _ h = reset-IsSound s h

run_from-IsSound :
    (s : SecurityState) (cs : List Call) → All IsCall cs → IsSound s → IsSound (run s cs)
unfolding run
run_from-IsSound s [] _ h = h
run_from-IsSound s (c ∷ cs) (hc, hcs) h =
    run_from-IsSound (apply s c) cs hcs (apply-IsSound s c hc h)

-- After any calls at all, the levels fit a byte, a lockout stands exactly while three attempts have
-- failed and then no seed waits, and a seed that waits is for a seed level, is not zero, and fits
-- 32 bits. So the count of failures never wraps.
pub run-IsSound : (cs : List Call) → All IsCall cs → IsSound (run new cs)
run-IsSound cs h = run_from-IsSound new cs h new-IsSound

-- The clock reading that a call compares with the end of the lockout.
abbrev pub IsBefore : ℕ → Call → Type 0
IsBefore until (call_request_seed level now nanos sub_tick) = now < until
IsBefore until (call_submit_key level key_bytes now) = Unit {0}
IsBefore until call_reset = Unit {0}

record IsLocked (until levels : ℕ) (s : SecurityState) : Type 0 where
  still : s.lockout_until ≡ some until
  no_seed : s.pending_seed ≡ none
  attempts : s.failed_attempts ≡ max_attempts
  no_gain : (s.unlocked_levels ≡ levels) ⊎ (s.unlocked_levels ≡ 0)

apply-IsLocked :
    (until levels : ℕ) (s : SecurityState) (c : Call)
    → IsBefore until c
    → IsLocked until levels s
    → IsLocked until levels (apply s c)
unfolding apply request_seed submit_key reset
apply-IsLocked until levels s (call_request_seed level now nanos sub_tick) before h = ground arith
apply-IsLocked until levels s (call_submit_key level key_bytes now) before h = ground arith
apply-IsLocked until levels s call_reset before h = ground arith

run-IsLocked :
    (until levels : ℕ) (s : SecurityState) (cs : List Call)
    → All (IsBefore until) cs
    → IsLocked until levels s
    → IsLocked until levels (run s cs)
unfolding run
run-IsLocked until levels s [] _ h = h
run-IsLocked until levels s (c ∷ cs) (before, later) h =
    run-IsLocked until levels (apply s c) cs later (apply-IsLocked until levels s c before h)

-- Until the lockout ends no call gets around it: after any calls whose seed requests are made
-- before its end, the lockout still stands with the same end, and the unlocked levels are those of
-- its beginning, or none after a reset.
pub run_locked_out :
    (until : ℕ) (s : SecurityState) (cs : List Call)
    → IsSound s
    → s.lockout_until ≡ some until
    → All (IsBefore until) cs
    → ((run s cs).lockout_until ≡ some until)
      × (((run s cs).unlocked_levels ≡ s.unlocked_levels) ⊎ ((run s cs).unlocked_levels ≡ 0))
run_locked_out until s cs sound locked before =
    let held = run-IsLocked until s.unlocked_levels s cs before begin in (held.still, held.no_gain)
  where
    begin : IsLocked until s.unlocked_levels s
    begin = ground arith
