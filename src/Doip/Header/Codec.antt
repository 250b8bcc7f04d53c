-- ===== src/Doip/Header/Codec.antt =====
-- flxc1000-doip/src/header.rs: what `parse`, `encode` and the payload type numbers promise.
use flxc1000_rpi.Prelude.{
  ap, sym, ◌∙◌, ℕ, ◌<◌, ◌≤◌, ◌≡◌, ◌↔◌, refl, none, some, List, ◌++◌, length, drop, arith, All, [],
  ◌∷◌,
}
use flxc1000_rpi.Bytes.{IsU8, IsU16, IsU32}
use flxc1000_rpi.Bytes.BigEndian.{u16_round_trip, u32_round_trip, IsU16-bytes, IsU32-bytes}
use flxc1000_rpi.Doip.Header.{PayloadType, from_u16, as_u16, DoipHeader, header_size, parse, encode}

-- The fields fit their Rust types.
pub record IsHeader (h : DoipHeader) : Type 0 where
  pub version_fits : IsU8 h.protocol_version
  pub inverse_fits : IsU8 h.inverse_version
  pub type_fits : IsU16 h.payload_type
  pub length_fits : IsU32 h.payload_length

-- A number is read as a payload type exactly when it is the number of that type: the two tables
-- are inverse to one another, and no number outside the table is read as a type.
pub from_u16-as_u16_iff : (v : ℕ) (t : PayloadType) → (from_u16 v ≡ some t) ↔ (v ≡ as_u16 t)
unfolding from_u16 as_u16
from_u16-as_u16_iff v t = ground arith

pub length-encode : (h : DoipHeader) → length (encode h) ≡ header_size
unfolding encode
length-encode h = refl

pub drop-encode : (h : DoipHeader) (rest : List ℕ) → drop header_size (encode h ++ rest) ≡ rest
unfolding encode
drop-encode h rest = refl

-- The parser reads back every header whose fields fit their widths, whatever bytes follow it.
pub parse-encode : (h : DoipHeader) (rest : List ℕ) → IsHeader h → parse (encode h ++ rest) ≡ some h
unfolding parse encode
parse-encode h rest fits =
    ground (arith, u16_round_trip h.payload_type, u32_round_trip h.payload_length)

-- Fewer than eight bytes are refused, and nothing else is.
pub parse-none_iff : (bytes : List ℕ) → (parse bytes ≡ none) ↔ (length bytes < header_size)
unfolding parse
parse-none_iff bytes = ground arith

-- Eight bytes or more are a header whose fields fit their widths; encoding it writes these bytes
-- again.
pub encode-parse :
    (bytes : List ℕ) (h : DoipHeader)
    → All IsU8 bytes
    → parse bytes ≡ some h
    → IsHeader h × (encode h ++ drop header_size bytes ≡ bytes)
unfolding parse encode
encode-parse [] h ok e = cc
encode-parse (a ∷ []) h ok e = cc
encode-parse (a ∷ b ∷ []) h ok e = cc
encode-parse (a ∷ b ∷ c ∷ []) h ok e = cc
encode-parse (a ∷ b ∷ c ∷ d ∷ []) h ok e = cc
encode-parse (a ∷ b ∷ c ∷ d ∷ p ∷ []) h ok e = cc
encode-parse (a ∷ b ∷ c ∷ d ∷ p ∷ q ∷ []) h ok e = cc
encode-parse (a ∷ b ∷ c ∷ d ∷ p ∷ q ∷ r ∷ []) h ok e = cc
encode-parse (a ∷ b ∷ c ∷ d ∷ p ∷ q ∷ r ∷ s ∷ rest) h
      (ha, (hb, (hc, (hd, (hp, (hq, (hr, (hs, _)))))))) e =
    ground (arith, IsU16-bytes c d hc hd, IsU32-bytes p q r s hp hq hr hs)

-- A header is parsed from bytes exactly when its fields fit their widths and its encoding, in front
-- of what is behind the first eight bytes, is the bytes.
pub parse-encode_iff :
    (bytes : List ℕ) (h : DoipHeader)
    → All IsU8 bytes
    → (parse bytes ≡ some h) ↔ (IsHeader h × (encode h ++ drop header_size bytes ≡ bytes))
parse-encode_iff bytes h are_bytes = (
  encode-parse bytes h are_bytes,
  λ both. ap parse (sym both.1) ∙ parse-encode h (drop header_size bytes) both.0,
)

-- The header is read from the first eight bytes alone.
pub parse-append :
    (bytes more : List ℕ) → header_size ≤ length bytes → parse (bytes ++ more) ≡ parse bytes
unfolding parse
parse-append [] more h = absurd (omega arith)
parse-append (a ∷ []) more h = absurd (omega arith)
parse-append (a ∷ b ∷ []) more h = absurd (omega arith)
parse-append (a ∷ b ∷ c ∷ []) more h = absurd (omega arith)
parse-append (a ∷ b ∷ c ∷ d ∷ []) more h = absurd (omega arith)
parse-append (a ∷ b ∷ c ∷ d ∷ p ∷ []) more h = absurd (omega arith)
parse-append (a ∷ b ∷ c ∷ d ∷ p ∷ q ∷ []) more h = absurd (omega arith)
parse-append (a ∷ b ∷ c ∷ d ∷ p ∷ q ∷ r ∷ []) more h = absurd (omega arith)
parse-append (a ∷ b ∷ c ∷ d ∷ p ∷ q ∷ r ∷ s ∷ rest) more h = ground arith
