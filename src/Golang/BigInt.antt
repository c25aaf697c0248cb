-- ===== src/Golang/BigInt.antt =====
-- The package `math/big`: reading integers, and their bytes.
use go_builder_relayer_clien.Prelude.{
  ℕ, ◌+◌, ◌*◌, Option, none, some, [], ◌∷◌, Text, Bytes, ◌==◌, if◌then◌else◌,
}
use go_builder_relayer_clien.Prelude.Int.{ℤ, pos, abs}
use go_builder_relayer_clien.Golang.Positional.{digits}
use go_builder_relayer_clien.Golang.Strconv.{digit_value, parse_signed}

-- what stands before the next character of a hexadecimal number
pub data Before : Type 0 where
  prefix digit separator : Before

-- An underscore may follow the prefix or a digit.
separated : Before → Option Before
separated prefix = some separator
separated digit = some separator
separated separator = none

-- the state and the value behind one more character
scan_char : Before → ℕ → ℕ → Option (Before × ℕ)
unfolding separated digit_value
scan_char before acc c =
    if c == b'_'
    then elim (separated before) [ none ↦ none | some next ↦ some (next, acc) ]
    else elim (digit_value 16 c) [ none ↦ none | some d ↦ some (digit, acc * 16 + d) ]

-- The number ends behind a digit.
scan_end : Before → ℕ → Option ℕ
scan_end digit acc = some acc
scan_end _ acc = none

scan_hex : Before → ℕ → Text → Option ℕ
unfolding scan_char scan_end
scan_hex before acc [] = scan_end before acc
scan_hex before acc (c ∷ s) = elim (scan_char before acc c) [
  | none ↦ none
  | some (next, acc') ↦ scan_hex next acc' s
]

-- new(big.Int).SetString(s, 0) of a text that begins with 0x or 0X: no sign can stand before it.
unfoldable pub set_string_prefixed : Text → Option ℤ
unfolding scan_hex
set_string_prefixed (_ ∷ _ ∷ s) = elim (scan_hex prefix 0 s) [ none ↦ none | some n ↦ some (pos n) ]
set_string_prefixed _ = none

-- new(big.Int).SetString(s, 10)
unfoldable pub set_string10 : Text → Option ℤ
unfolding parse_signed
set_string10 s = parse_signed s

-- v.Bytes(): the absolute value, big-endian, with no leading zero
unfoldable pub big_bytes : ℤ → Bytes
unfolding digits
big_bytes v = digits 256 (abs v)
