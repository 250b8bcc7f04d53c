-- ===== src/Init/Wait.antt =====
-- flxc1000-init/src/main.rs: the wait for the partitions ends, and what it finds.
use flxc1000_rpi.Prelude.{
  ℕ, zero, suc, ◌+◌, ◌*◌, ◌≤◌, ◌<◌, ◌≡◌, ◌≢◌, refl, inl, inr, ◌↔◌, true, false, Bool-cases, ltb,
  none, some, arith, le→not_ltb, lt→ltb, ltb→lt, sym, ◌∙◌,
}
use flxc1000_rpi.Init.{Env, deadline, both_exist, poll_interval, wait_from, wait_for_mmc_partitions}

-- What `Instant` and `sleep` promise: the clock does not run backwards, and a sleep lasts for the
-- given time at least.
pub record IsClock (env : Env) : Type 0 where
  pub starts : env.clock 0 ≤ env.clock 1
  pub sleeps : (k : ℕ) → env.clock (suc k) + poll_interval ≤ env.clock (suc (suc k))

module _ (env : Env) where
  -- The round `k` is reached `k` intervals after the start at the earliest.
  clock-bound : IsClock env → (k : ℕ) → env.clock 0 + k * poll_interval ≤ env.clock (suc k)
  clock-bound c zero = omega (arith, c.starts)
  clock-bound c (suc k) = omega (arith, clock-bound c k, c.sleeps k)

  clock-monotone : IsClock env → (k m : ℕ) → k ≤ m → env.clock (suc k) ≤ env.clock (suc m)
  clock-monotone c k zero order = grind arith
  clock-monotone c k (suc m) order = grind (arith, clock-monotone c k m, c.sleeps m)

  -- Both partitions are there in a round that begins before the deadline.
  abbrev pub Found : Type 0
  Found = (k : ℕ) × (env.clock (suc k) < deadline env) × (both_exist env k ≡ true)

  -- The three results of one round.
  wait_from-late :
      (fuel k : ℕ)
      → ltb (env.clock (suc k)) (deadline env) ≡ false
      → wait_from env (suc fuel) k ≡ some false
  unfolding wait_from
  wait_from-late fuel k late = rw late refl

  wait_from-found :
      (fuel k : ℕ)
      → ltb (env.clock (suc k)) (deadline env) ≡ true
      → both_exist env k ≡ true
      → wait_from env (suc fuel) k ≡ some true
  unfolding wait_from
  wait_from-found fuel k early found = rw (early, found) refl

  wait_from-next :
      (fuel k : ℕ)
      → ltb (env.clock (suc k)) (deadline env) ≡ true
      → both_exist env k ≡ false
      → wait_from env (suc fuel) k ≡ wait_from env fuel (suc k)
  unfolding wait_from
  wait_from-next fuel k early missing = rw (early, missing) refl

  wait_from-ends : IsClock env → (fuel k : ℕ) → fuel + k ≡ 100 → wait_from env (suc fuel) k ≢ none
  wait_from-ends c zero k last e =
      cc (wait_from-late 0 k (le→not_ltb _ _ (omega (arith, clock-bound c k, last))), e)
  wait_from-ends c (suc fuel) k last e =
      elim (Bool-cases (ltb (env.clock (suc k)) (deadline env))) [
        | inr late ↦ cc (wait_from-late (suc fuel) k late, e)
        | inl early ↦ elim (Bool-cases (both_exist env k)) [
          | inl found ↦ cc (wait_from-found (suc fuel) k early found, e)
          | inr missing ↦
              wait_from-ends c fuel (suc k) (omega (arith, last))
                (sym (wait_from-next (suc fuel) k early missing) ∙ e)
        ]
      ]

  wait_from→Found : (fuel k : ℕ) → wait_from env fuel k ≡ some true → Found
  unfolding wait_from
  wait_from→Found zero k e = absurd (cc e)
  wait_from→Found (suc fuel) k e = elim (Bool-cases (ltb (env.clock (suc k)) (deadline env))) [
    | inr late ↦ absurd (cc (wait_from-late fuel k late, e))
    | inl early ↦ elim (Bool-cases (both_exist env k)) [
      | inl found ↦ (k, ltb→lt _ _ early, found)
      | inr missing ↦ wait_from→Found fuel (suc k) (sym (wait_from-next fuel k early missing) ∙ e)
    ]
  ]

  -- From a round no later than one in which both are found.
  Found→wait_from :
      IsClock env
      → (fuel k m : ℕ) → k ≤ m
      → m < fuel + k
      → env.clock (suc m) < deadline env
      → both_exist env m ≡ true
      → wait_from env fuel k ≡ some true
  Found→wait_from c zero k m order enough early found = absurd (omega (arith, order, enough))
  Found→wait_from c (suc fuel) k m order enough early found =
      let in_time =
        lt→ltb (env.clock (suc k)) (deadline env)
          (omega (arith, early, clock-monotone c k m order)) in
      elim (Bool-cases (both_exist env k)) [
        | inl now ↦ wait_from-found fuel k in_time now
        | inr missing ↦
            let later : suc k ≤ m = grind (arith, order, missing, found) in
            wait_from-next fuel k in_time missing
            ∙ Found→wait_from c fuel (suc k) m later (omega (arith, enough)) early found
      ]

  -- The wait ends within its 101 rounds.
  pub wait_for_mmc_partitions-ends : IsClock env → wait_for_mmc_partitions env ≢ none
  unfolding wait_for_mmc_partitions
  wait_for_mmc_partitions-ends c = wait_from-ends c 100 0 refl

  -- On a clock that does not run backwards and with sleeps of the given length at least, the wait
  -- reports success exactly when both partitions are there in one of its rounds that begins before
  -- the deadline.
  pub wait_for_mmc_partitions_iff : IsClock env → (wait_for_mmc_partitions env ≡ some true) ↔ Found
  unfolding wait_for_mmc_partitions
  wait_for_mmc_partitions_iff c = (
    wait_from→Found 101 0,
    λ (k, early, found).
        Found→wait_from c 101 0 k (omega arith) (omega (arith, clock-bound c k, early)) early found,
  )
