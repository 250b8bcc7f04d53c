-- ===== src/Bytes/Bitwise.antt =====
-- Rust's `^`, `|` and `&` on the widths that the code uses: a 32-bit exclusive or, and the set of
-- unlocked levels in a `u8`.
use Prim.Native.Nat.{differ, digits, bit_xor-bitwise, bit_and-bitwise}
use native.Mathlib.Decide.{ℕ_discrete}
use native.Mathlib.Nat.{pow-suc}
use flxc1000_rpi.Prelude.{
  ℕ, zero, suc, ◌/◌, ◌%◌, ◌^◌, ◌≤◌, ◌<◌, bit_and, bit_or, bit_xor, ◌≡◌, refl, Bool, true, false,
  ◌||◌, if◌then◌else◌, not, ◌==◌, ltb, ltb→lt, arith,
}

differ-le : (x y : ℕ) → x ≤ 1 → y ≤ 1 → differ x y ≤ 1
differ-le zero y p q = q
differ-le (suc zero) zero p q = omega arith
differ-le (suc zero) (suc zero) p q = omega arith
differ-le (suc zero) (suc (suc y)) p q = absurd (omega arith)
differ-le (suc (suc x)) y p q = absurd (omega arith)

-- With numbers of `k` digits, however many digits are still to go.
xor_digits-lt : (k n a b : ℕ) → a < 2 ^ k → b < 2 ^ k → digits (λ y. y) differ n a b < 2 ^ k
xor_digits-lt k zero a b p q = q
xor_digits-lt k (suc n) zero b p q = q
xor_digits-lt zero (suc n) (suc a) b p q = absurd (omega arith)
xor_digits-lt (suc k) (suc n) (suc a) b p q = omega (
  arith,
  pow-suc 2 k,
  differ-le (suc a % 2) (b % 2) (omega arith) (omega arith),
  xor_digits-lt k n (suc a / 2) (b / 2) (omega (arith, pow-suc 2 k)) (omega (arith, pow-suc 2 k)),
)

pub bit_xor-lt : (k a b : ℕ) → a < 2 ^ k → b < 2 ^ k → bit_xor a b < 2 ^ k
bit_xor-lt k a b p q = rw bit_xor-bitwise (xor_digits-lt k a a b p q)

-- Facts about a byte and its bits, by running a test on all of them.
holds_below : (ℕ → Bool) → ℕ → Bool
holds_below test zero = true
holds_below test (suc i) = if test i then holds_below test i else false

holds_below→holds :
    (test : ℕ → Bool) (bound : ℕ)
    → holds_below test bound ≡ true
    → (i : ℕ) → i < bound
    → test i ≡ true
unfolding holds_below
holds_below→holds test zero all i below = elim below [ ]
holds_below→holds test (suc j) all i below = elim (ℕ_discrete i j) [
  | yes last ↦ rw last (ground arith)
  | no earlier ↦ holds_below→holds test j (ground arith) i (omega arith)
]

-- `set & (1 << i) != 0`, for the shift of a `u8`.
abbrev pub has_bit : ℕ → ℕ → Bool
has_bit set i = not (bit_and set (2 ^ i) == 0)

same : Bool → Bool → Bool
same true b = b
same false b = not b

same→eq : (a b : Bool) → same a b ≡ true → a ≡ b
unfolding same
same→eq a b h = ground arith

-- The empty set has no bit.
pub not-has_bit-zero : (i : ℕ) → has_bit 0 i ≡ false
not-has_bit-zero i = let zeros : bit_and 0 (2 ^ i) ≡ 0 = bit_and-bitwise 0 (2 ^ i) in rw zeros refl

insert_table :
    holds_below
      (λ set.
        holds_below
          (λ i.
            holds_below (λ j. same (has_bit (bit_or set (2 ^ i)) j) (i == j || has_bit set j)) 8)
          8)
      256
    ≡ true
unfolding holds_below same
insert_table = refl

-- Inserting one bit into a byte adds that bit to its set, and no other.
pub has_bit-insert :
    (set i j : ℕ)
    → set < 256
    → i < 8
    → j < 8
    → has_bit (bit_or set (2 ^ i)) j ≡ (i == j || has_bit set j)
has_bit-insert set i j hs hi hj =
    let for_set = holds_below→holds _ 256 insert_table set hs in
    let for_bit = holds_below→holds _ 8 for_set i hi in
    same→eq _ _ (holds_below→holds _ 8 for_bit j hj)

bit_or_table : holds_below (λ set. holds_below (λ i. ltb (bit_or set (2 ^ i)) 256) 8) 256 ≡ true
unfolding holds_below
bit_or_table = refl

pub bit_or-lt : (set i : ℕ) → set < 256 → i < 8 → bit_or set (2 ^ i) < 256
bit_or-lt set i hs hi =
    ltb→lt _ _ (holds_below→holds _ 8 (holds_below→holds _ 256 bit_or_table set hs) i hi)
