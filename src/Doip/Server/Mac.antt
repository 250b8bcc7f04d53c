-- ===== src/Doip/Server/Mac.antt =====
-- flxc1000-doip/src/server.rs: `get_mac_address`. Texts are lists of code points, as `trim`
-- sees them; the standard library's `trim`, `split` and `from_str_radix` are written out.
use flxc1000_rpi.Prelude.{
  ℕ, ◌+◌, ◌-◌, ◌*◌, ltb, leb, ◌==◌, if◌then◌else◌, Bool, true, false, not, ◌&&◌, Option, none, some,
  List, [], ◌∷◌, length, map, replicate,
}
use flxc1000_rpi.Text.{trim}
use mathlib.Core.Option

abbrev pub prepend : ℕ → List (List ℕ) → List (List ℕ)
prepend c [] = (c ∷ []) ∷ []
prepend c (part ∷ parts) = (c ∷ part) ∷ parts

unfoldable pub split : ℕ → List ℕ → List (List ℕ)
split separator [] = [] ∷ []
split separator (c ∷ cs) =
    let rest = split separator cs in if c == separator then [] ∷ rest else prepend c rest

unfoldable pub digit_value : ℕ → Option ℕ
digit_value c =
    if leb b'0' c && leb c b'9'
    then some (c - b'0')
    else if leb b'a' c && leb c b'f'
    then some (c - b'a' + 10)
    else if leb b'A' c && leb c b'F'
    then some (c - b'A' + 10)
    else none

-- The digits of a `u8` to base 16, with the checks for overflow.
abbrev pub push_digit : ℕ → Option ℕ → Option ℕ
push_digit acc none = none
push_digit acc (some d) = if ltb (acc * 16 + d) 256 then some (acc * 16 + d) else none

unfoldable pub read_digits : List ℕ → Option ℕ → Option ℕ
unfolding digit_value
read_digits [] acc = acc
read_digits (c ∷ cs) none = none
read_digits (c ∷ cs) (some acc) = read_digits cs (push_digit acc (digit_value c))

-- `u8::from_str_radix(text, 16)`, where `none` is the error: one leading `+` is allowed.
unfoldable pub from_str_radix_16 : List ℕ → Option ℕ
unfolding read_digits
from_str_radix_16 [] = none
from_str_radix_16 (c ∷ []) = read_digits (c ∷ []) (some 0)
from_str_radix_16 (c ∷ d ∷ cs) =
    if c == b'+' then read_digits (d ∷ cs) (some 0) else read_digits (c ∷ d ∷ cs) (some 0)

-- A part that is no number leaves the zero that the array began with.
abbrev pub part_byte : List ℕ → ℕ
part_byte part = Option.get_or (from_str_radix_16 part) 0

abbrev pub all_zero : List ℕ → Bool
all_zero [] = true
all_zero (b ∷ bs) = b == 0 && all_zero bs

unfoldable pub parse_mac : List ℕ → Option (List ℕ)
unfolding trim split from_str_radix_16
parse_mac text =
    let parts = split b':' (trim text) in
    if length parts == 6
    then (let mac = map part_byte parts in if not (all_zero mac) then some mac else none)
    else none

-- An interface under /sys/class/net: its name, and its file `address` if that can be read.
pub record Interface : Type 0 where
  pub name : List ℕ
  pub address : Option (List ℕ)

-- `name == "lo"`
abbrev pub is_loopback : List ℕ → Bool
is_loopback (a ∷ b ∷ []) = a == b'l' && b == b'o'
is_loopback _ = false

abbrev pub found_mac : Bool → Option (List ℕ) → Option (List ℕ)
found_mac true address = none
found_mac false none = none
found_mac false (some text) = parse_mac text

abbrev pub or_else : Option (List ℕ) → List ℕ → List ℕ
or_else none rest = rest
or_else (some mac) rest = mac

-- The entries of the directory in the order in which it is read; a directory that cannot be read
-- has none.
unfoldable pub get_mac_address : List Interface → List ℕ
get_mac_address [] = replicate 6 0
get_mac_address (i ∷ is) = or_else (found_mac (is_loopback i.name) i.address) (get_mac_address is)
