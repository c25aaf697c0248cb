-- ===== src/Golang/Strconv.antt =====
-- The package `strconv` and the verb %d: decimal numbers in text.
pub mod RoundTrip
use go_builder_relayer_clien.Prelude.{
  ℕ, zero, suc, ◌+◌, ◌-◌, ◌*◌, ◌^◌, refl, ◌&&◌, Option, none, some, [], ◌∷◌, map, Text, codes, ltb,
  leb, ◌==◌, if◌then◌else◌,
}
use go_builder_relayer_clien.Prelude.Int.{ℤ, pos, negsuc, neg}
use go_builder_relayer_clien.Golang.Positional.{digits}

-- fmt.Sprintf("%d", n) of a number that is not negative
unfoldable pub format_nat : ℕ → Text
format_nat zero = b'0' ∷ []
format_nat (suc n) = map (λ d. b'0' + d) (digits 10 (suc n))

-- fmt.Sprintf("%d", a)
unfoldable pub format_int : ℤ → Text
unfolding format_nat
format_int (pos n) = format_nat n
format_int (negsuc n) = b'-' ∷ format_nat (suc n)

-- '0' to '9', 'a' to 'z' and 'A' to 'Z' as digits
letter_value : ℕ → Option ℕ
letter_value c =
    if leb b'0' c && leb c b'9'
    then some (c - b'0')
    else if leb b'a' c && leb c b'z'
    then some (c - b'a' + 10)
    else if leb b'A' c && leb c b'Z'
    then some (c - b'A' + 10)
    else none

-- ... if they are below the base
unfoldable pub digit_value : ℕ → ℕ → Option ℕ
unfolding letter_value
digit_value base c = elim (letter_value c) [
  | none ↦ none
  | some d ↦ if ltb d base then some d else none
]

-- decimal digits behind `acc`, the whole text
unfoldable pub scan_decimal : ℕ → Text → Option ℕ
unfolding digit_value
scan_decimal acc [] = some acc
scan_decimal acc (c ∷ s) = elim (digit_value 10 c) [
  | none ↦ none
  | some d ↦ scan_decimal (acc * 10 + d) s
]

-- one digit or more
unfoldable pub parse_nat : Text → Option ℕ
unfolding scan_decimal
parse_nat [] = none
parse_nat (c ∷ s) = scan_decimal 0 (c ∷ s)

abbrev pub negate : Option ℕ → Option ℤ
negate none = none
negate (some n) = some (neg (pos n))

abbrev pub positive : Option ℕ → Option ℤ
positive none = none
positive (some n) = some (pos n)

-- an optional sign, then digits
unfoldable pub parse_signed : Text → Option ℤ
unfolding parse_nat
parse_signed [] = none
parse_signed (c ∷ s) =
    if c == b'-'
    then negate (parse_nat s)
    else if c == b'+'
    then positive (parse_nat s)
    else positive (parse_nat (c ∷ s))

abbrev pub in_int64 : ℤ → Option ℤ
in_int64 (pos n) = if ltb n (2 ^ 63) then some (pos n) else none
in_int64 (negsuc n) = if ltb n (2 ^ 63) then some (negsuc n) else none

-- strconv.Atoi(s) with a 64-bit int; `none` is its error, for a bad text or a value out of range
unfoldable pub atoi : Text → Option ℤ
atoi s = elim (parse_signed s) [ none ↦ none | some a ↦ in_int64 a ]
