-- ===== src/App/Network.antt =====
-- flxc1000-app/src/main.rs: the wait for a network interface, and its configuration. What is done to
-- the outside, the sleeps and the calls of `ip`, is a list in its order; whether a command succeeds
-- makes no difference to the rest, and the log is left out.
use flxc1000_rpi.Prelude.{
  ℕ, zero, suc, ◌+◌, ◌<◌, ◌≡◌, ◌≢◌, refl, ap, subst, ◌⊎◌, inl, inr, if◌then◌else◌, Bool-cases,
  Option, none, some, Option-cases, List, [], ◌∷◌, ◌++◌, All, replicate, arith,
}
use flxc1000_rpi.Doip.Server.Address.{loopback_name, is_loopback-name}
use flxc1000_rpi.Doip.Server.Mac.{is_loopback}

-- The names under /sys/class/net in each attempt, or `none` where they cannot be listed.
abbrev pub Listing : Type 0
Listing = ℕ → Option (List (List ℕ))

-- `eth0`
abbrev pub default_interface : List ℕ
default_interface = b'e' ∷ b't' ∷ b'h' ∷ b'0' ∷ []

unfoldable pub first_other : List (List ℕ) → Option (List ℕ)
first_other [] = none
first_other (name ∷ names) =
    let rest = first_other names in if is_loopback name then rest else some name

abbrev pub found_in : Option (List (List ℕ)) → Option (List ℕ)
found_in none = none
found_in (some names) = first_other names

abbrev pub attempts : ℕ
attempts = 20

-- The two calls of `ip`: `link set NAME up`, and `addr add 169.254.16.1/16 dev NAME`.
pub data NetworkEffect : Type 0 where
  slept : ℕ → NetworkEffect  -- milliseconds
  link_set_up : List ℕ → NetworkEffect
  addr_add : List ℕ → NetworkEffect

-- An attempt that finds a name ends the wait; another sleeps before the rest.
abbrev pub attempt_result :
    Option (List ℕ) → List ℕ × List NetworkEffect → List ℕ × List NetworkEffect
attempt_result none (name, effects) = (name, slept 500 ∷ effects)
attempt_result (some name) rest = (name, [])

-- The `for`, with the attempts that are left and the one that is made.
unfoldable pub wait_from : Listing → ℕ → ℕ → List ℕ × List NetworkEffect
unfolding first_other
wait_from listing zero attempt = (default_interface, [])
wait_from listing (suc left) attempt =
    attempt_result (found_in (listing attempt)) (wait_from listing left (suc attempt))

unfoldable pub wait_for_eth_interface : Listing → List ℕ × List NetworkEffect
unfolding wait_from
wait_for_eth_interface listing = wait_from listing attempts 0

-- The commands are run in turn, whether they fail or not.
unfoldable pub configure_network : Listing → List NetworkEffect
unfolding wait_for_eth_interface
configure_network listing =
    let (iface, effects) = wait_for_eth_interface listing in
    effects ++ link_set_up iface ∷ addr_add iface ∷ []

-- The first name of a listing that is not the loopback.
abbrev pub IsFirstOther : List ℕ → Option (List (List ℕ)) → Type 0
IsFirstOther name listed =
    (before : List (List ℕ)) × (later : List (List ℕ)) × (listed ≡ some (before ++ name ∷ later))
    × All (λ n. n ≡ loopback_name) before
    × (name ≢ loopback_name)

-- A listing that failed, or that holds no other name.
abbrev pub HasNoOther : Option (List (List ℕ)) → Type 0
HasNoOther none = Unit {0}
HasNoOther (some names) = All (λ n. n ≡ loopback_name) names

-- All attempts from one on, as many as there are.
abbrev pub HaveNoOther : Listing → ℕ → ℕ → Type 0
HaveNoOther listing from zero = Unit {0}
HaveNoOther listing from (suc n) = HasNoOther (listing from) × HaveNoOther listing (suc from) n

first_other-found :
    (names : List (List ℕ)) (name : List ℕ)
    → first_other names ≡ some name
    → IsFirstOther name (some names)
unfolding first_other
first_other-found [] name e = absurd (cc e)
first_other-found (n ∷ names) name e = elim (Bool-cases (is_loopback n)) [
  | inl lo ↦
      let (before, later, split, all, other) = first_other-found names name (rw lo at e) in
      let same : names ≡ before ++ name ∷ later = cc split in
      (n ∷ before, later, rw same refl, (is_loopback-name n lo, all), other)
  | inr other ↦
      let same : n ≡ name = cc (rw other at e) in
      ([], names, rw same refl, tt, λ lo. absurd (cc (other, same, lo)))
]

first_other-none :
    (names : List (List ℕ)) → first_other names ≡ none → All (λ n. n ≡ loopback_name) names
unfolding first_other
first_other-none [] e = tt
first_other-none (n ∷ names) e = elim (Bool-cases (is_loopback n)) [
  | inl lo ↦ (is_loopback-name n lo, first_other-none names (rw lo at e))
  | inr other ↦ absurd (cc (rw other at e))
]

found_in-found :
    (listed : Option (List (List ℕ))) (name : List ℕ)
    → found_in listed ≡ some name
    → IsFirstOther name listed
found_in-found none name e = absurd (cc e)
found_in-found (some names) name e = first_other-found names name e

found_in-none : (listed : Option (List (List ℕ))) → found_in listed ≡ none → HasNoOther listed
found_in-none none e = tt
found_in-none (some names) e = first_other-none names e

-- How the wait ends after some attempts: a name is listed, or none was left and it is `eth0`.
abbrev pub Ends : Listing → ℕ → ℕ → List ℕ → ℕ → Type 0
Ends listing from left name n =
    ((n < left) × IsFirstOther name (listing (from + n)))
    ⊎ ((n ≡ left) × (name ≡ 0x65 ∷ 0x74 ∷ 0x68 ∷ 0x30 ∷ []))

-- The attempts before list no name.
abbrev pub IsFirst : Listing → ℕ → ℕ → List ℕ → ℕ → Type 0
IsFirst listing from left name n = HaveNoOther listing from n × Ends listing from left name n

Ends-earlier :
    (listing : Listing) (left from : ℕ) (name : List ℕ) (n : ℕ)
    → Ends listing (suc from) left name n
    → Ends listing from (suc left) name (suc n)
Ends-earlier listing left from name n (inl (more, first)) =
    let same : suc from + n ≡ from + suc n = omega arith in
    inl (omega arith, subst (λ k. IsFirstOther name (listing k)) same first)
Ends-earlier listing left from name n (inr (last, default)) = inr (omega arith, default)

wait_from-IsFirst :
    (listing : Listing) (left from : ℕ)
    → (n : ℕ) × IsFirst listing from left (wait_from listing left from).0 n
      × ((wait_from listing left from).1 ≡ replicate n (slept 500))
unfolding wait_from
wait_from-IsFirst listing zero from = (0, (tt, inr (refl, refl)), refl)
wait_from-IsFirst listing (suc left) from = elim (Option-cases (found_in (listing from))) [
  | inr (name, e) ↦
      let at_from : from ≡ from + 0 = omega arith in
      let found =
        subst (λ k. IsFirstOther name (listing k)) at_from (found_in-found (listing from) name e) in
      rw e (0, (tt, inl (omega arith, found)), refl)
  | inl e ↦
      let (n, (before, ends), sleeps) = wait_from-IsFirst listing left (suc from) in
      let here = found_in-none (listing from) e in
      rw e (
        suc n,
        ((here, before), Ends-earlier listing left from _ n ends),
        ap (λ l. slept 500 ∷ l) sleeps,
      )
]

-- The network is configured on one interface: the first one other than the loopback that is listed in
-- the first of the twenty attempts to list one, after half a second of sleep for each attempt before;
-- and `eth0`, after twenty sleeps, where none of them lists one.
pub configure_network-IsFirst :
    (listing : Listing)
    → (name : List ℕ) × (n : ℕ) × IsFirst listing 0 20 name n
      × (configure_network listing
          ≡ replicate n (slept 500) ++ link_set_up name ∷ addr_add name ∷ [])
unfolding configure_network wait_for_eth_interface
configure_network-IsFirst listing =
    let (n, first, sleeps) = wait_from-IsFirst listing attempts 0 in
    ((wait_from listing attempts 0).0, n, first, rw sleeps refl)
