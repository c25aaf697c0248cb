-- ===== src/Golang/Strings.antt =====
-- The package `strings`: white space and trailing characters.
pub mod Trimming
use go_builder_relayer_clien.Prelude.{
  ℕ, zero, suc, refl, Bool, ◌&&◌, ◌||◌, Option, none, some, [], ◌∷◌, reverse, Text, codes, length,
  leb, ◌==◌, if◌then◌else◌,
}

-- '\t', '\n', '\v', '\f', '\r', ' '
is_ascii_space : ℕ → Bool
is_ascii_space c = (leb 9 c && leb c 13) || c == 32

-- U+0085 and U+00A0 in UTF-8
is_space2 : ℕ → ℕ → Bool
is_space2 a b = a == 0xC2 && (b == 0x85 || b == 0xA0)

-- U+1680, U+2000 to U+200A, U+2028, U+2029, U+202F, U+205F and U+3000 in UTF-8
is_space3 : ℕ → ℕ → ℕ → Bool
is_space3 a b c =
    (a == 0xE1 && b == 0x9A && c == 0x80)
    || (a == 0xE2
        && b == 0x80
        && ((leb 0x80 c && leb c 0x8A) || c == 0xA8 || c == 0xA9 || c == 0xAF))
    || (a == 0xE2 && b == 0x81 && c == 0x9F)
    || (a == 0xE3 && b == 0x80 && c == 0x80)

-- The text behind one white space at its start, by tests for the longer encodings.
skip_space : (ℕ → ℕ → Bool) → (ℕ → ℕ → ℕ → Bool) → Text → Option Text
unfolding is_ascii_space
skip_space two three [] = none
skip_space two three (a ∷ []) = if is_ascii_space a then some [] else none
skip_space two three (a ∷ b ∷ []) =
    if is_ascii_space a then some (b ∷ []) else if two a b then some [] else none
skip_space two three (a ∷ b ∷ c ∷ s) =
    if is_ascii_space a
    then some (b ∷ c ∷ s)
    else if two a b
    then some (c ∷ s)
    else if three a b c
    then some s
    else none

skip_spaces : (ℕ → ℕ → Bool) → (ℕ → ℕ → ℕ → Bool) → ℕ → Text → Text
unfolding skip_space
skip_spaces two three zero s = s
skip_spaces two three (suc fuel) s = elim (skip_space two three s) [
  | none ↦ s
  | some r ↦ skip_spaces two three fuel r
]

trim_left_space : Text → Text
unfolding skip_spaces is_space2 is_space3
trim_left_space s = skip_spaces is_space2 is_space3 (length s) s

trim_right_space : Text → Text
unfolding skip_spaces is_space2 is_space3
trim_right_space s =
    reverse (skip_spaces (λ b a. is_space2 a b) (λ c b a. is_space3 a b c) (length s) (reverse s))

-- strings.TrimSpace(s)
unfoldable pub trim_space : Text → Text
unfolding trim_left_space trim_right_space
trim_space s = trim_right_space (trim_left_space s)

drop_leading : ℕ → Text → Text
drop_leading c [] = []
drop_leading c (a ∷ s) = if a == c then drop_leading c s else a ∷ s

-- strings.TrimRight(s, "c") for one character c
unfoldable pub trim_right : Text → ℕ → Text
unfolding drop_leading
trim_right s c = reverse (drop_leading c (reverse s))
