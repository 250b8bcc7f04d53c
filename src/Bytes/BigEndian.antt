-- ===== src/Bytes/BigEndian.antt =====
-- Big-endian conversion is a bijection between the integers of a width and their bytes.
use flxc1000_rpi.Prelude.{ℕ, ◌/◌, ◌%◌, ◌≡◌, arith}
use flxc1000_rpi.Bytes.{IsU8, IsU16, IsU32, u16_from_be_bytes, u32_from_be_bytes}

pub u16_round_trip : (n : ℕ) → IsU16 n → u16_from_be_bytes (n / 256 % 256) (n % 256) ≡ n
u16_round_trip n h = omega arith

pub u32_round_trip :
    (n : ℕ)
    → IsU32 n
    → u32_from_be_bytes (n / 16777216 % 256) (n / 65536 % 256) (n / 256 % 256) (n % 256) ≡ n
u32_round_trip n h = omega arith

pub IsU16-bytes :
    (a b : ℕ)
    → IsU8 a
    → IsU8 b
    → let n = u16_from_be_bytes a b in IsU16 n × (n / 256 % 256 ≡ a) × (n % 256 ≡ b)
IsU16-bytes a b ha hb = (omega arith, omega arith, omega arith)

pub IsU32-bytes :
    (a b c d : ℕ)
    → IsU8 a
    → IsU8 b
    → IsU8 c
    → IsU8 d
    → let n = u32_from_be_bytes a b c d in
      IsU32 n
      × (n / 16777216 % 256 ≡ a)
      × (n / 65536 % 256 ≡ b)
      × (n / 256 % 256 ≡ c)
      × (n % 256 ≡ d)
IsU32-bytes a b c d ha hb hc hd = (omega arith, omega arith, omega arith, omega arith, omega arith)
