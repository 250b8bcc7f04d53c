-- ===== src/Uds/Dispatcher/Explained/Access.antt =====
-- flxc1000-uds/src/dispatcher.rs: `handle_security_access` and the history.
use flxc1000_rpi.Prelude.{
  ℕ, suc, ◌-◌, ◌%◌, ◌≡◌, refl, inl, inr, ltb, ◌==◌, false, Bool-cases, List, [], ◌∷◌, length, All,
  arith,
}
use flxc1000_rpi.Bytes.{IsU8, IsU32}
use flxc1000_rpi.Bytes.Bitwise.{has_bit-insert}
use flxc1000_rpi.Uds.Nrc
use flxc1000_rpi.Uds.Nrc.{
  Nrc, Result, ok, err, sub_function_not_supported, service_not_supported, conditions_not_correct,
  security_access_denied,
}
use flxc1000_rpi.Uds.Session.{Session}
use flxc1000_rpi.Uds.Security.{
  SecurityState, is_unlocked, request_seed, submit_key, draw_seed, shift_of,
}
use flxc1000_rpi.Uds.Security.Invariant.{
  IsSound, draw_seed_fits, request_seed-IsSound, submit_key-IsSound,
}
use flxc1000_rpi.Uds.Security.Handshake.{submit_key_unlocks_only}
use flxc1000_rpi.Uds.Dispatcher.{
  UdsDispatcher, Readings, handle_security_access, seed_response, key_response,
}
use flxc1000_rpi.Uds.Dispatcher.History.{Exchange}
use flxc1000_rpi.Uds.Dispatcher.Explained.{IsExplained, Unlocks-positive, keeps-IsExplained, entry}
use flxc1000_rpi.Uds.Security.Outcomes.{
  request_seed_refused, request_seed_handed_out, submit_key_refused, submit_key_accepted,
}

module _ (session : Session) (level : ℕ) (more : List ℕ) (log : List Exchange) where
  -- The exchange of a request for the security access.
  abbrev exchange : List ℕ → Exchange
  exchange response = record {
    session = session;
    request = 0x27 ∷ level ∷ more;
    response = response;
  }

  seed-IsExplained :
      (now nanos sub_tick : ℕ) (s : SecurityState) (result : Result (List ℕ)) (s' : SecurityState)
      → request_seed level now nanos sub_tick s ≡ (result, s')
      → level % 2 ≡ 1
      → IsU32 nanos
      → IsU32 sub_tick
      → IsSound s'
      → IsExplained s log
      → IsExplained s' (exchange (seed_response level result) ∷ log)
  unfolding is_unlocked
  seed-IsExplained now nanos sub_tick s (err nrc) s' e odd hn ht sound h =
      let same = request_seed_refused level now nanos sub_tick s e in
      keeps-IsExplained s' _ log (unfold Nrc.response in ground arith) refl (rw same h)
  seed-IsExplained now nanos sub_tick s (ok bytes) s' e odd hn ht sound h =
      let (levels, some_bytes, pending) = request_seed_handed_out level now nanos sub_tick s e in
      let (positive, _) = draw_seed_fits nanos sub_tick hn ht in
      record {
        sound = sound;
        seed = λ l seed waits. elim pending [
          | inl none_left ↦ absurd (cc (none_left, waits))
          | inr (this_one, same_bytes) ↦
              let (same_level, same_seed) : (level ≡ l) × (draw_seed nanos sub_tick ≡ seed) =
                ground arith in
              inl record {
                more = more;
                asked = rw same_level refl;
                answered = rw (same_bytes, same_level, same_seed) refl;
                not_zero = rw (← same_seed) positive;
              }
        ];
        unlocked = λ l e. inr (refl, h.unlocked l (rw (← levels) e));
        opened = λ l o. elim o [
          | inl u ↦ let accepted = u.accepted in absurd (some_bytes (ground arith))
          | inr (_, before) ↦ rw levels (h.opened l before)
        ];
      }

  key-IsExplained :
      (now : ℕ) (s : SecurityState) (result : Result (Unit {0})) (s' : SecurityState)
      → submit_key level more now s ≡ (result, s')
      → IsSound s'
      → IsExplained s log
      → IsExplained s' (exchange (key_response level result) ∷ log)
  unfolding is_unlocked
  key-IsExplained now s (err nrc) s' e sound h =
      let (levels, pending) = submit_key_refused level more now s e in
      record {
        sound = sound;
        seed = λ l seed waits. elim pending [
          | inl none_left ↦ absurd (cc (none_left, waits))
          | inr (same, early) ↦
              inr (unfold Nrc.response in ground arith, h.seed l seed (rw (← same) waits))
        ];
        unlocked = λ l o. inr (refl, h.unlocked l (rw (← levels) o));
        opened = λ l o. elim o [
          | inl u ↦
              let positive = Unlocks-positive l _ log u in
              absurd (unfold Nrc.response in cc positive)
          | inr (_, before) ↦ rw levels (h.opened l before)
        ];
      }
  key-IsExplained now s (ok tt) s' e sound h =
      let (used, positive, levels) = submit_key_accepted level more now s e in
      let below : suc (level - 1) ≡ level = omega arith in
      record {
        sound = sound;
        seed = λ l seed waits. absurd (cc (used, waits));
        unlocked = λ l o. elim (Bool-cases (is_unlocked s l)) [
          | inl before ↦ inr (refl, h.unlocked l before)
          | inr locked ↦
              let (seed, waited, four, right, shares) =
                submit_key_unlocks_only level more now l s h.sound locked
                  (unfold is_unlocked in (rw e o)) in
              inl record {
                seed_level = level - 1;
                seed = seed;
                key = more;
                asked = rw below refl;
                accepted = rw below refl;
                waited = h.seed (level - 1) seed waited;
                four = four;
                right = right;
                shares = shares;
              }
        ];
        opened = λ l o.
            let insert =
              has_bit-insert s.unlocked_levels (shift_of (level - 1)) (shift_of l)
                h.sound.levels_fit (omega arith) (omega arith) in
            elim o [
              | inl u ↦
                  let shares = u.shares in
                  let asked = u.asked in
                  let same : u.seed_level ≡ level - 1 = ground arith in rw levels (ground arith)
              | inr (_, before) ↦ let set = h.opened l before in rw levels (ground arith)
            ];
      }

pub handle_security_access-IsExplained :
    (more : List ℕ) (r : Readings) (d : UdsDispatcher) (log : List Exchange)
    → All IsU8 more
    → IsU32 r.nanos
    → IsU32 r.sub_tick
    → IsExplained d.security log
    → let (response, d') = handle_security_access (0x27 ∷ more) r d in
      IsExplained d'.security (entry d (0x27 ∷ more) response ∷ log)
unfolding handle_security_access
handle_security_access-IsExplained [] r d log bytes hn ht h =
    keeps-IsExplained d.security _ log (unfold Nrc.response in refl) refl h
handle_security_access-IsExplained (level ∷ more) r d log (byte, _) hn ht h =
    let long : ltb (length (0x27 ∷ level ∷ more)) 2 ≡ false = ground arith in
    elim (Bool-cases (level % 2 == 1)) [
      | inl odd ↦
          rw (long, odd)
            (seed-IsExplained d.session.current level more log r.served r.nanos r.sub_tick
              d.security (request_seed level r.served r.nanos r.sub_tick d.security).0
              (request_seed level r.served r.nanos r.sub_tick d.security).1 refl (ground arith) hn
              ht
              (request_seed-IsSound level r.served r.nanos r.sub_tick d.security byte hn ht h.sound)
              h)
      | inr even ↦
          rw (long, even)
            (key-IsExplained d.session.current level more log r.served d.security
              (submit_key level more r.served d.security).0
              (submit_key level more r.served d.security).1 refl
              (submit_key-IsSound level more r.served d.security h.sound) h)
    ]
