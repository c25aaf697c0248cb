-- ===== src/Golang/ParseInt.antt =====
-- strconv.ParseInt(s, 10, 64), with the value that it returns next to an error.
use go_builder_relayer_clien.Prelude.{
  ℕ, ◌+◌, ◌-◌, ◌*◌, ◌^◌, Option, none, some, [], ◌∷◌, Text, codes, leb, ltb, ◌==◌, if◌then◌else◌,
}
use go_builder_relayer_clien.Prelude.Int.{ℤ, pos, negsuc, neg}
use go_builder_relayer_clien.Golang.Strconv.{digit_value}

-- strconv.ParseUint of base 10: it stops at the first character that is no digit, or where the value
-- passes 64 bits
pub data Unsigned : Type 0 where
  syntax too_large : Unsigned
  number : ℕ → Unsigned

scan : ℕ → Text → Unsigned
unfolding digit_value
scan acc [] = number acc
scan acc (c ∷ s) = elim (digit_value 10 c) [
  | none ↦ syntax
  | some d ↦
      let rest = scan (acc * 10 + d) s in if leb (2 ^ 64) (acc * 10 + d) then too_large else rest
]

unfoldable pub parse_uint : Text → Unsigned
unfolding scan
parse_uint [] = syntax
parse_uint (c ∷ s) = scan 0 (c ∷ s)

pub data Failure : Type 0 where
  err_syntax err_range : Failure

positive : Unsigned → ℤ × Option Failure
positive syntax = (pos 0, some err_syntax)
positive too_large = (pos (2 ^ 63 - 1), some err_range)
positive (number n) = if leb (2 ^ 63) n then (pos (2 ^ 63 - 1), some err_range) else (pos n, none)

negative : Unsigned → ℤ × Option Failure
negative syntax = (pos 0, some err_syntax)
negative too_large = (negsuc (2 ^ 63 - 1), some err_range)
negative (number n) =
    if ltb (2 ^ 63) n then (negsuc (2 ^ 63 - 1), some err_range) else (neg (pos n), none)

unfoldable pub parse_int : Text → ℤ × Option Failure
unfolding parse_uint positive negative
parse_int [] = (pos 0, some err_syntax)
parse_int (c ∷ s) =
    if c == b'-'
    then negative (parse_uint s)
    else if c == b'+'
    then positive (parse_uint s)
    else positive (parse_uint (c ∷ s))

-- the error behind the text that was read
abbrev pub failure_text : Failure → Text
failure_text err_syntax = codes "invalid syntax"
failure_text err_range = codes "value out of range"
