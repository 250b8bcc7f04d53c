-- ===== src/Boot/Security.antt =====
-- flxc1000-boot/src/main.rs: which keys the security provider accepts.
use flxc1000_rpi.Prelude.{
  ℕ, ◌*◌, ◌%◌, ◌^◌, bit_xor, ◌≡◌, ◌↔◌, refl, sym, ap, ◌∙◌, List, [], ◌∷◌, arith, ◌==◌,
  if◌then◌else◌,
}
use flxc1000_rpi.Bytes.{byte_at, IsU8, IsU32, u32_to_be_bytes, u32_from_be_bytes}
use flxc1000_rpi.Bytes.BigEndian.{IsU32-bytes, u32_round_trip}
use flxc1000_rpi.Bytes.Bitwise.{bit_xor-lt}
use flxc1000_rpi.Uds.Security.{calculate_key}
use flxc1000_rpi.Boot.{valid_key, invalid_key, generate_seed, validate_key}

-- The seed as a number.
abbrev pub seed_number : ℕ → ℕ
seed_number nanos = nanos * 2654435761 % 2 ^ 32

if-valid_iff : (x y : ℕ) → ((if x == y then valid_key else invalid_key) ≡ valid_key) ↔ (x ≡ y)
if-valid_iff x y = ground arith

unfoldable number_of : List ℕ → ℕ
number_of key = u32_from_be_bytes (byte_at key 0) (byte_at key 1) (byte_at key 2) (byte_at key 3)

number-digits_iff :
    (a b c d m : ℕ)
    → IsU8 a
    → IsU8 b
    → IsU8 c
    → IsU8 d
    → IsU32 m
    → (u32_from_be_bytes a b c d ≡ m) ↔ ((a ∷ b ∷ c ∷ d ∷ []) ≡ u32_to_be_bytes m)
unfolding number_of
number-digits_iff a b c d m ha hb hc hd hm =
    let (fits, ea, eb, ec, ed) = IsU32-bytes a b c d ha hb hc hd in
    let same : u32_to_be_bytes (u32_from_be_bytes a b c d) ≡ (a ∷ b ∷ c ∷ d ∷ []) =
      rw (ea, eb, ec, ed) refl in
    (λ e. sym same ∙ ap u32_to_be_bytes e, λ e. ap number_of e ∙ u32_round_trip m hm)

seed-IsU32 : (nanos : ℕ) → IsU32 (seed_number nanos)
seed-IsU32 nanos = omega arith

-- Against a seed that it generated itself, whatever the time, the provider accepts exactly one key
-- of four bytes: the bytes of the key that flxc1000-uds calculates from the seed's number.
pub validate_key-generate_seed_iff :
    (level nanos a b c d : ℕ)
    → IsU8 a
    → IsU8 b
    → IsU8 c
    → IsU8 d
    → (validate_key level (generate_seed level nanos) (a ∷ b ∷ c ∷ d ∷ []) ≡ valid_key)
      ↔ ((a ∷ b ∷ c ∷ d ∷ []) ≡ u32_to_be_bytes (calculate_key (seed_number nanos) level))
unfolding validate_key generate_seed calculate_key
validate_key-generate_seed_iff level nanos a b c d ha hb hc hd =
    let n = seed_number nanos in
    let m : ℕ = bit_xor n 0xDEAD_BEEF in
    let small = bit_xor-lt 32 n 0xDEAD_BEEF (seed-IsU32 nanos) (omega arith) in
    let (to, from) = number-digits_iff a b c d m ha hb hc hd small in
    let (valid_to, valid_from) = if-valid_iff (u32_from_be_bytes a b c d) m in
    let read = u32_round_trip n (seed-IsU32 nanos) in
    rw read (λ e. to (valid_to e), λ e. valid_from (from e))
