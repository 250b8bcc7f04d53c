-- ===== src/Doip/Server/Address.antt =====
-- flxc1000-doip/src/server.rs: which MAC address is found.
use flxc1000_rpi.Doip.Server.Form.{IsTextOf, parse_mac-IsTextOf}
use flxc1000_rpi.Prelude.{
  ℕ, suc, ◌≡◌, refl, sym, subst, ap, ◌∙◌, ◌≢◌, ◌++◌, ◌⊎◌, inl, inr, true, false, Bool-cases, ==_iff,
  Option-cases, not, ◌==◌, if◌then◌else◌, Option, none, some, List, [], ◌∷◌, length, map, All,
  arith, replicate,
}
use flxc1000_rpi.Bytes.{IsU8}
use flxc1000_rpi.Text.{trim}
use flxc1000_rpi.Doip.Server.Mac.{
  is_loopback, split, part_byte, push_digit, read_digits, from_str_radix_16, digit_value, all_zero,
  parse_mac, found_mac, Interface, or_else, get_mac_address,
}

-- A part that parses is a byte.
push_digit-fits : (acc : ℕ) (d : Option ℕ) (b : ℕ) → push_digit acc d ≡ some b → IsU8 b
push_digit-fits acc none b e = cc
push_digit-fits acc (some d) b e = ground arith

read_digits-fits :
    (cs : List ℕ) (acc : Option ℕ) (b : ℕ)
    → ((a : ℕ) → acc ≡ some a → IsU8 a)
    → read_digits cs acc ≡ some b
    → IsU8 b
unfolding read_digits
read_digits-fits [] acc b h e = h b e
read_digits-fits (c ∷ cs) none b h e = cc
read_digits-fits (c ∷ cs) (some a) b h e =
    read_digits-fits cs (push_digit a (digit_value c)) b (push_digit-fits a (digit_value c)) e

small_start : (a : ℕ) → some 0 ≡ some a → IsU8 a
small_start a e = ground arith

from_str_radix_16-fits : (part : List ℕ) (b : ℕ) → from_str_radix_16 part ≡ some b → IsU8 b
unfolding from_str_radix_16
from_str_radix_16-fits [] b e = cc
from_str_radix_16-fits (c ∷ []) b e = read_digits-fits (c ∷ []) (some 0) b small_start e
from_str_radix_16-fits (c ∷ d ∷ cs) b e = elim (Bool-cases (c == b'+')) [
  | inl plus ↦ read_digits-fits (d ∷ cs) (some 0) b small_start (rw plus at e)
  | inr digit ↦ read_digits-fits (c ∷ d ∷ cs) (some 0) b small_start (rw digit at e)
]

part_byte-fits : (part : List ℕ) → IsU8 (part_byte part)
part_byte-fits part = elim (Option-cases (from_str_radix_16 part)) [
  | inl e ↦ rw e (omega arith)
  | inr (b, e) ↦ rw e (from_str_radix_16-fits part b e)
]

abbrev pub IsMac : List ℕ → Type 0
IsMac mac = (length mac ≡ 6) × All IsU8 mac

length-map : (parts : List (List ℕ)) → length (map part_byte parts) ≡ length parts
length-map [] = refl
length-map (p ∷ ps) = ap suc (length-map ps)

All-map : (parts : List (List ℕ)) → All IsU8 (map part_byte parts)
All-map [] = tt
All-map (p ∷ ps) = (part_byte-fits p, All-map ps)

part_bytes_fit :
    (parts : List (List ℕ)) (mac : List ℕ)
    → (if length parts == 6
        then (if not (all_zero (map part_byte parts)) then some (map part_byte parts) else none)
        else none)
      ≡ some mac
    → IsMac mac × (all_zero mac ≡ false)
part_bytes_fit parts mac e = elim (Bool-cases (length parts == 6)) [
  | inr other ↦ absurd (cc (rw other at e))
  | inl six ↦ elim (Bool-cases (all_zero (map part_byte parts))) [
    | inl zeros ↦ absurd (cc (rw (six, zeros) at e))
    | inr some_byte ↦
        let same : map part_byte parts ≡ mac = ground (arith, rw (six, some_byte) at e) in
        rw (← same) ((length-map parts ∙ (==_iff _ _).0 six, All-map parts), some_byte)
  ]
]

parse_mac-fits :
    (text mac : List ℕ) → parse_mac text ≡ some mac → IsMac mac × (all_zero mac ≡ false)
unfolding parse_mac
parse_mac-fits text mac e = part_bytes_fit (split b':' (trim text)) mac e

-- `lo`
abbrev pub loopback_name : List ℕ
loopback_name = 0x6C ∷ 0x6F ∷ []

pub is_loopback-name : (name : List ℕ) → is_loopback name ≡ true → name ≡ loopback_name
is_loopback-name [] h = cc h
is_loopback-name (a ∷ []) h = cc h
is_loopback-name (a ∷ b ∷ []) h = ground arith
is_loopback-name (a ∷ b ∷ c ∷ name) h = cc h

-- The loopback, an interface whose file cannot be read, or one whose file is not the text of an
-- address other than zero.
abbrev pub IsUseless : Interface → Type 0
IsUseless i =
    (i.name ≡ loopback_name)
    ⊎ (i.address ≡ none)
    ⊎ ((text : List ℕ) × (i.address ≡ some text)
        × (parse_mac text ≡ none)
        × (¬ ((mac : List ℕ) × IsTextOf text mac)))

-- What the file of an interface gives: six bytes, not all zero, and no other than those that it is
-- the text of.
pub record Gives (i : Interface) (mac : List ℕ) : Type 0 where
  pub not_loopback : i.name ≢ loopback_name
  pub text : List ℕ
  pub read : i.address ≡ some text
  pub parsed : parse_mac text ≡ some mac
  pub is_mac : IsMac mac
  pub not_zero : all_zero mac ≡ false
  pub no_other : ¬ ((other : List ℕ) × IsTextOf text other × (other ≢ mac))

found_mac-Gives :
    (i : Interface) (mac : List ℕ)
    → found_mac (is_loopback i.name) i.address ≡ some mac
    → Gives i mac
found_mac-Gives i mac e = elim (Bool-cases (is_loopback i.name)) [
  | inl lo ↦ absurd (cc (rw lo at e))
  | inr other ↦ elim (Option-cases i.address) [
    | inl unread ↦ absurd (cc (rw (other, unread) at e))
    | inr (text, read) ↦
        let parsed : parse_mac text ≡ some mac = rw (other, read) at e in
        let (fits, not_zero) = parse_mac-fits text mac parsed in
        record {
          not_loopback = λ same. absurd (cc (other, same));
          text = text;
          read = read;
          parsed = parsed;
          is_mac = fits;
          not_zero = not_zero;
          no_other = λ (m, t, differs). differs (cc (parse_mac-IsTextOf text m t, parsed));
        }
  ]
]

found_mac-IsUseless :
    (i : Interface) → found_mac (is_loopback i.name) i.address ≡ none → IsUseless i
found_mac-IsUseless i e = elim (Bool-cases (is_loopback i.name)) [
  | inl lo ↦ inl (is_loopback-name i.name lo)
  | inr other ↦ elim (Option-cases i.address) [
    | inl unread ↦ inr (inl unread)
    | inr (text, read) ↦
        let refused : parse_mac text ≡ none = rw (other, read) at e in
        inr
          (inr (text, read, refused, λ (m, t). absurd (cc (parse_mac-IsTextOf text m t, refused))))
  ]
]

-- The address of the first interface that gives one, or zeros where none does.
abbrev pub IsFirstMac : List ℕ → List Interface → Type 0
IsFirstMac mac is =
    ((before : List Interface) × (i : Interface) × (later : List Interface) × (is
        ≡ before ++ i ∷ later)
      × All IsUseless before
      × Gives i mac)
    ⊎ (All IsUseless is × (mac ≡ replicate 6 0))

IsFirstMac-later :
    (mac : List ℕ) (i : Interface) (is : List Interface)
    → IsUseless i
    → IsFirstMac mac is
    → IsFirstMac mac (i ∷ is)
IsFirstMac-later mac i is useless (inl (before, j, later, split, all, gives)) =
    inl (i ∷ before, j, later, ap (λ l. i ∷ l) split, (useless, all), gives)
IsFirstMac-later mac i is useless (inr (all, zeros)) = inr ((useless, all), zeros)

-- The address that is found is that of the first interface in the order of the directory that gives
-- one: it is not the loopback, and its file can be read and holds six parts between colons that are
-- not all zero. Where the file holds an address as the kernel writes it, it is this address. Six
-- zeros are the answer exactly where no interface gives one.
pub get_mac_address_found : (is : List Interface) → IsFirstMac (get_mac_address is) is
unfolding get_mac_address
get_mac_address_found [] = inr (tt, refl)
get_mac_address_found (i ∷ is) = elim (Option-cases (found_mac (is_loopback i.name) i.address)) [
  | inl skipped ↦
      subst (λ o. IsFirstMac (or_else o (get_mac_address is)) (i ∷ is)) (sym skipped)
        (IsFirstMac-later (get_mac_address is) i is (found_mac-IsUseless i skipped)
          (get_mac_address_found is))
  | inr (mac, e) ↦
      subst (λ o. IsFirstMac (or_else o (get_mac_address is)) (i ∷ is)) (sym e)
        (inl ([], i, is, refl, tt, found_mac-Gives i mac e))
]

pub get_mac_address-IsMac : (is : List Interface) → IsMac (get_mac_address is)
get_mac_address-IsMac is = elim (get_mac_address_found is) [
  | inl (before, i, later, split, useless, gives) ↦ gives.is_mac
  | inr (useless, zeros) ↦ rw zeros (omega arith)
]
