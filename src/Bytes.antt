-- ===== src/Bytes.antt =====
-- Rust's fixed-width unsigned integers as native numbers, and `to_be_bytes` and `from_be_bytes`,
-- which the DoIP codec and the security access use. A byte slice is a list of numbers.
pub mod BigEndian
pub mod Bitwise
use flxc1000_rpi.Prelude.{ℕ, ◌+◌, ◌*◌, ◌/◌, ◌%◌, ◌^◌, ◌<◌, List, [], ◌∷◌, get_or}

abbrev pub IsU8 : ℕ → Type 0
IsU8 n = n < 2 ^ 8

abbrev pub IsU16 : ℕ → Type 0
IsU16 n = n < 2 ^ 16

abbrev pub IsU32 : ℕ → Type 0
IsU32 n = n < 2 ^ 32

-- `slice[i]`. The code indexes only behind a test of the length; out of range this reads 0.
abbrev pub byte_at : List ℕ → ℕ → ℕ
byte_at xs i = get_or xs i 0

abbrev pub u16_to_be_bytes : ℕ → List ℕ
u16_to_be_bytes n = (n / 256 % 256) ∷ (n % 256) ∷ []

abbrev pub u16_from_be_bytes : ℕ → ℕ → ℕ
u16_from_be_bytes a b = a * 256 + b

abbrev pub u32_to_be_bytes : ℕ → List ℕ
u32_to_be_bytes n = (n / 16777216 % 256) ∷ (n / 65536 % 256) ∷ (n / 256 % 256) ∷ (n % 256) ∷ []

abbrev pub u32_from_be_bytes : ℕ → ℕ → ℕ → ℕ → ℕ
u32_from_be_bytes a b c d = a * 16777216 + b * 65536 + c * 256 + d
