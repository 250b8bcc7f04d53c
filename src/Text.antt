-- ===== src/Text.antt =====
-- Texts as lists of Unicode code points, with the operations of the standard library that the
-- program applies to the files it reads. Blanks are the characters with the property White_Space.
use flxc1000_rpi.Prelude.{ℕ, leb, ◌==◌, if◌then◌else◌, Bool, true, false, ◌&&◌, ◌||◌, List, [], ◌∷◌}

abbrev pub is_whitespace : ℕ → Bool
is_whitespace c =
    (leb 9 c && leb c 13)
    || c == b' '
    || c == 0x85
    || c == 0xA0
    || c == 0x1680
    || (leb 0x2000 c && leb c 0x200A)
    || c == 0x2028
    || c == 0x2029
    || c == 0x202F
    || c == 0x205F
    || c == 0x3000

unfoldable pub trim_start : List ℕ → List ℕ
trim_start [] = []
trim_start (c ∷ cs) = if is_whitespace c then trim_start cs else c ∷ cs

abbrev pub drop_blank_end : ℕ → List ℕ → List ℕ
drop_blank_end c [] = if is_whitespace c then [] else c ∷ []
drop_blank_end c (d ∷ ds) = c ∷ d ∷ ds

unfoldable pub trim_end : List ℕ → List ℕ
trim_end [] = []
trim_end (c ∷ cs) = drop_blank_end c (trim_end cs)

unfoldable pub trim : List ℕ → List ℕ
unfolding trim_start trim_end
trim text = trim_end (trim_start text)

-- `==` on two texts.
abbrev pub text_eq : List ℕ → List ℕ → Bool
text_eq [] [] = true
text_eq (a ∷ text) (b ∷ other) = a == b && text_eq text other
text_eq _ _ = false
