-- ===== src/Utils/Integers.antt =====
-- Numbers in requests: `ParseBigInt` on what %d and big.Int.String print.
use go_builder_relayer_clien.Prelude.{
  suc, ◌≡◌, ◌≢◌, refl, ap, ◌∙◌, false, [], ◌∷◌, arith, Text, All,
}
use go_builder_relayer_clien.Prelude.Int.{ℤ, pos, negsuc}
use go_builder_relayer_clien.Errors.{ok}
use go_builder_relayer_clien.Golang.Strings.{trim_space}
use go_builder_relayer_clien.Golang.Strings.Trimming.{IsSolid, trim_space-solid}
use go_builder_relayer_clien.Golang.Strconv.{format_int}
use go_builder_relayer_clien.Golang.Strconv.RoundTrip.{
  IsDigit, format_nat-IsDigit, format_nat-ne-nil, parse_signed-format_int,
}
use go_builder_relayer_clien.Golang.BigInt.{set_string10}
use go_builder_relayer_clien.Utils.{has_0x, set_string, or_invalid, parse_big_int}

-- what the decimal print of an integer is made of
abbrev IsDecimal : Text → Type 0
IsDecimal s = All (λ c. IsSolid c × (c ≢ b'x') × (c ≢ b'X')) s × (s ≢ [])

All-decimal : (s : Text) → All IsDigit s → All (λ c. IsSolid c × (c ≢ b'x') × (c ≢ b'X')) s
All-decimal [] h = tt
All-decimal (c ∷ s) (hc, hs) =
    (((omega arith, omega arith), omega arith, omega arith), All-decimal s hs)

All-IsSolid : (s : Text) → All (λ c. IsSolid c × (c ≢ b'x') × (c ≢ b'X')) s → All IsSolid s
All-IsSolid [] h = tt
All-IsSolid (c ∷ s) (hc, hs) = (hc.0, All-IsSolid s hs)

format_int-IsDecimal : (a : ℤ) → IsDecimal (format_int a)
unfolding format_int
format_int-IsDecimal (pos n) = (All-decimal _ (format_nat-IsDigit n), format_nat-ne-nil n)
format_int-IsDecimal (negsuc n) = (
  (
    ((omega arith, omega arith), omega arith, omega arith),
    All-decimal _ (format_nat-IsDigit (suc n)),
  ),
  cc,
)

pub trim_space-format_int : (a : ℤ) → trim_space (format_int a) ≡ format_int a
trim_space-format_int a = trim_space-solid _ (All-IsSolid _ (format_int-IsDecimal a).0)

pub format_int-ne-nil : (a : ℤ) → format_int a ≢ []
format_int-ne-nil a = (format_int-IsDecimal a).1

has_0x-decimal : (s : Text) → IsDecimal s → has_0x s ≡ false
unfolding has_0x
has_0x-decimal [] h = refl
has_0x-decimal (a ∷ []) h = ground arith
has_0x-decimal (a ∷ b ∷ s) h = ground arith

parse_big_int-set_string :
    (s : Text) → s ≢ [] → parse_big_int s ≡ or_invalid s (set_string (trim_space s))
unfolding parse_big_int
parse_big_int-set_string [] h = absurd (h refl)
parse_big_int-set_string (c ∷ s) h = refl

set_string-decimal : (s : Text) → IsDecimal s → set_string s ≡ set_string10 s
unfolding set_string
set_string-decimal s h = rw (has_0x-decimal s h)

-- Every integer is read back from its decimal print, negative ones too.
pub parse_big_int-format_int : (a : ℤ) → parse_big_int (format_int a) ≡ ok a
unfolding set_string10
parse_big_int-format_int a =
    let d = format_int-IsDecimal a in
    parse_big_int-set_string (format_int a) d.1
    ∙ ap (λ (t : Text). or_invalid (format_int a) (set_string t)) (trim_space-format_int a)
    ∙ ap (or_invalid (format_int a)) (set_string-decimal _ d ∙ parse_signed-format_int a)
