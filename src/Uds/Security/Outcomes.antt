-- ===== src/Uds/Security/Outcomes.antt =====
-- flxc1000-uds/src/security.rs: what a refusal and a success of each call leave behind.
use flxc1000_rpi.Prelude.{ℕ, bit_or, ◌^◌, ◌≢◌, ◌-◌, ◌≡◌, ◌⊎◌, ◌<◌, none, some, List, [], arith}
use flxc1000_rpi.Bytes.{u32_to_be_bytes}
use flxc1000_rpi.Uds.Nrc.{Nrc, ok, err, sub_function_not_supported}
use flxc1000_rpi.Uds.Security.{SecurityState, request_seed, submit_key, draw_seed, shift_of}

pub request_seed_refused :
    (level now nanos sub_tick : ℕ) (s : SecurityState) {nrc : Nrc} {s' : SecurityState}
    → request_seed level now nanos sub_tick s ≡ (err nrc, s')
    → s' ≡ s
unfolding request_seed
request_seed_refused level now nanos sub_tick s e = ground arith

pub request_seed_handed_out :
    (level now nanos sub_tick : ℕ) (s : SecurityState) {bytes : List ℕ} {s' : SecurityState}
    → request_seed level now nanos sub_tick s ≡ (ok bytes, s')
    → (s'.unlocked_levels ≡ s.unlocked_levels)
      × (bytes ≢ [])
      × ((s'.pending_seed ≡ none)
          ⊎ ((s'.pending_seed ≡ some (level, draw_seed nanos sub_tick))
              × (bytes ≡ u32_to_be_bytes (draw_seed nanos sub_tick))))
unfolding request_seed
request_seed_handed_out level now nanos sub_tick s e = ground arith

pub submit_key_refused :
    (level : ℕ) (key_bytes : List ℕ) (now : ℕ) (s : SecurityState) {nrc : Nrc} {s' : SecurityState}
    → submit_key level key_bytes now s ≡ (err nrc, s')
    → (s'.unlocked_levels ≡ s.unlocked_levels)
      × ((s'.pending_seed ≡ none) ⊎ ((s' ≡ s) × (nrc ≡ sub_function_not_supported)))
unfolding submit_key
submit_key_refused level key_bytes now s e = ground arith

pub submit_key_accepted :
    (level : ℕ) (key_bytes : List ℕ) (now : ℕ) (s : SecurityState) {s' : SecurityState}
    → submit_key level key_bytes now s ≡ (ok tt, s')
    → (s'.pending_seed ≡ none)
      × (0 < level)
      × (s'.unlocked_levels ≡ bit_or s.unlocked_levels (2 ^ shift_of (level - 1)))
unfolding submit_key
submit_key_accepted level key_bytes now s e = ground arith
