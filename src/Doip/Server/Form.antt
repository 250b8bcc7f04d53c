-- ===== src/Doip/Server/Form.antt =====
-- flxc1000-doip/src/server.rs: a MAC address as the kernel writes it, and that it is read back.
use flxc1000_rpi.Prelude.{
  ℕ, ◌+◌, ◌*◌, ◌/◌, ◌%◌, ◌<◌, ltb, ◌≡◌, refl, ◌==◌, if◌then◌else◌, true, false, ◌++◌, All, some,
  List, [], ◌∷◌, arith,
}
use flxc1000_rpi.Bytes.{IsU8}
use flxc1000_rpi.Text.{is_whitespace, trim, trim_start, trim_end}
use flxc1000_rpi.Doip.Server.Mac.{
  split, digit_value, read_digits, from_str_radix_16, part_byte, all_zero, parse_mac,
}

-- A digit to base 16, in lower case.
unfoldable pub hex_digit : ℕ → ℕ
hex_digit n = if ltb n 10 then b'0' + n else 87 + n

-- Six bytes in two digits each, with colons between them and a line end.
abbrev pub mac_text : ℕ → ℕ → ℕ → ℕ → ℕ → ℕ → List ℕ
mac_text a b c d e f =
    hex_digit (a / 16)
    ∷ hex_digit (a % 16)
    ∷ b':'
    ∷ hex_digit (b / 16)
    ∷ hex_digit (b % 16)
    ∷ b':'
    ∷ hex_digit (c / 16)
    ∷ hex_digit (c % 16)
    ∷ b':'
    ∷ hex_digit (d / 16)
    ∷ hex_digit (d % 16)
    ∷ b':'
    ∷ hex_digit (e / 16)
    ∷ hex_digit (e % 16)
    ∷ b':'
    ∷ hex_digit (f / 16)
    ∷ hex_digit (f % 16)
    ∷ 10
    ∷ []

hex_digit-value : (n : ℕ) → n < 16 → digit_value (hex_digit n) ≡ some n
unfolding hex_digit digit_value
hex_digit-value n h = ground arith

hex_digit-kinds : (n : ℕ) → ((hex_digit n == b'+') ≡ false) × ((hex_digit n == b':') ≡ false)
unfolding hex_digit
hex_digit-kinds n = (ground arith, ground arith)

hex_digit-is_whitespace : (n : ℕ) → n < 16 → is_whitespace (hex_digit n) ≡ false
unfolding hex_digit
hex_digit-is_whitespace n h = ground arith

part_byte-hex_digit :
    (a : ℕ) → IsU8 a → part_byte (hex_digit (a / 16) ∷ hex_digit (a % 16) ∷ []) ≡ a
unfolding from_str_radix_16 read_digits
part_byte-hex_digit a h =
    let high = hex_digit-value (a / 16) (omega arith) in
    let low = hex_digit-value (a % 16) (omega arith) in
    let fits : ltb (0 * 16 + a / 16) 256 ≡ true = ground arith in
    let whole : ltb ((0 * 16 + a / 16) * 16 + a % 16) 256 ≡ true = ground arith in
    rw ((hex_digit-kinds (a / 16)).0, read_digits, high, fits, low, whole) (omega arith)

abbrev digits_of : ℕ → List ℕ
digits_of a = hex_digit (a / 16) ∷ hex_digit (a % 16) ∷ []

-- The text without its line end.
abbrev line_of : ℕ → ℕ → ℕ → ℕ → ℕ → ℕ → List ℕ
line_of a b c d e f =
    digits_of a
    ++ b':' ∷ digits_of b
    ++ b':' ∷ digits_of c
    ++ b':' ∷ digits_of d
    ++ b':' ∷ digits_of e
    ++ b':' ∷ digits_of f

trim-mac_text : (a b c d e f : ℕ) → IsU8 a → trim (mac_text a b c d e f) ≡ line_of a b c d e f
unfolding trim trim_start trim_end
trim-mac_text a b c d e f h =
    rw (hex_digit-is_whitespace (a / 16) (omega arith))
      (rw (hex_digit-is_whitespace (f % 16) (omega arith)) refl)

-- The digits up to a colon, in front of the parts behind it.
split-digits_of :
    (a : ℕ) (rest : List ℕ) (parts : List (List ℕ))
    → split b':' rest ≡ parts
    → split b':' (digits_of a ++ b':' ∷ rest) ≡ digits_of a ∷ parts
unfolding split
split-digits_of a rest parts e =
    rw ((hex_digit-kinds (a / 16)).1, (hex_digit-kinds (a % 16)).1, e) refl

split-last : (a : ℕ) → split b':' (digits_of a) ≡ digits_of a ∷ []
unfolding split
split-last a = rw ((hex_digit-kinds (a / 16)).1, (hex_digit-kinds (a % 16)).1) refl

split-line_of :
    (a b c d e f : ℕ)
    → split b':' (line_of a b c d e f)
      ≡ digits_of a ∷ digits_of b ∷ digits_of c ∷ digits_of d ∷ digits_of e ∷ digits_of f ∷ []
split-line_of a b c d e f = split-digits_of a _ _ (
    split-digits_of b _ _
      (split-digits_of c _ _ (split-digits_of d _ _ (split-digits_of e _ _ (split-last f)))))

-- An address that is not all zero is read back from the text in which the kernel writes it.
parse_mac-mac_text :
    (a b c d e f : ℕ)
    → All IsU8 (a ∷ b ∷ c ∷ d ∷ e ∷ f ∷ [])
    → all_zero (a ∷ b ∷ c ∷ d ∷ e ∷ f ∷ []) ≡ false
    → parse_mac (mac_text a b c d e f) ≡ some (a ∷ b ∷ c ∷ d ∷ e ∷ f ∷ [])
unfolding parse_mac
parse_mac-mac_text a b c d e f (ha, (hb, (hc, (hd, (he, (hf, _)))))) other =
    rw
      (
        trim-mac_text a b c d e f ha,
        split-line_of a b c d e f,
        part_byte-hex_digit a ha,
        part_byte-hex_digit b hb,
        part_byte-hex_digit c hc,
        part_byte-hex_digit d hd,
        part_byte-hex_digit e he,
        part_byte-hex_digit f hf,
        other,
      )
      refl

-- The text is that of the address, which is not all zero.
pub record IsTextOf (text mac : List ℕ) : Type 0 where
  pub byte0 : ℕ
  pub byte1 : ℕ
  pub byte2 : ℕ
  pub byte3 : ℕ
  pub byte4 : ℕ
  pub byte5 : ℕ
  pub bytes : mac ≡ byte0 ∷ byte1 ∷ byte2 ∷ byte3 ∷ byte4 ∷ byte5 ∷ []
  pub fit : All IsU8 (byte0 ∷ byte1 ∷ byte2 ∷ byte3 ∷ byte4 ∷ byte5 ∷ [])
  pub not_zero : all_zero (byte0 ∷ byte1 ∷ byte2 ∷ byte3 ∷ byte4 ∷ byte5 ∷ []) ≡ false
  pub written : text ≡ mac_text byte0 byte1 byte2 byte3 byte4 byte5

pub parse_mac-IsTextOf : (text mac : List ℕ) → IsTextOf text mac → parse_mac text ≡ some mac
parse_mac-IsTextOf text mac t =
    rw (t.written, t.bytes)
      (parse_mac-mac_text t.byte0 t.byte1 t.byte2 t.byte3 t.byte4 t.byte5 t.fit t.not_zero)
