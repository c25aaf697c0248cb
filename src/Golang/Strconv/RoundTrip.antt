-- ===== src/Golang/Strconv/RoundTrip.antt =====
-- Reading decimal numbers behind printing them.
use go_builder_relayer_clien.Prelude.{
  ℕ, zero, suc, ◌+◌, ◌*◌, ◌≤◌, ◌<◌, ◌≡◌, ◌≢◌, refl, ap, ◌∙◌, some, List, [], ◌∷◌, map, arith, Text,
  All,
}
use go_builder_relayer_clien.Prelude.Int.{ℤ, pos, negsuc}
use go_builder_relayer_clien.Golang.Positional.{digits, value, value_from, value-digits, All-digits}
use go_builder_relayer_clien.Golang.Strconv.{
  format_nat, format_int, scan_decimal, parse_nat, parse_signed, positive, negate,
}

abbrev pub show_digit : ℕ → ℕ
show_digit d = b'0' + d

abbrev pub IsDigit : ℕ → Type 0
IsDigit c = (b'0' ≤ c) × (c ≤ b'9')

All-map : (ds : List ℕ) → All (λ d. d < 10) ds → All IsDigit (map show_digit ds)
All-map [] h = tt
All-map (d ∷ ds) (hd, hs) = ((omega arith, omega arith), All-map ds hs)

scan-map :
    (acc : ℕ) (ds : List ℕ)
    → All (λ d. d < 10) ds
    → scan_decimal acc (map show_digit ds) ≡ some (value_from 10 acc ds)
unfolding scan_decimal
scan-map acc [] h = refl
scan-map acc (d ∷ ds) (hd, hs) = ground (arith, scan-map (acc * 10 + d) ds hs)

map-ne-nil : (ds : List ℕ) → ds ≢ [] → map show_digit ds ≢ []
map-ne-nil [] h e = h refl
map-ne-nil (d ∷ ds) h e = cc

digits-ne-nil : (n : ℕ) → digits 10 (suc n) ≢ []
digits-ne-nil n e = absurd (omega (arith, ap (value 10) e, value-digits 10 (suc n)))

pub format_nat-IsDigit : (n : ℕ) → All IsDigit (format_nat n)
unfolding format_nat
format_nat-IsDigit zero = omega arith
format_nat-IsDigit (suc n) = All-map (digits 10 (suc n)) (All-digits 10 (suc n) (omega arith))

pub format_nat-ne-nil : (n : ℕ) → format_nat n ≢ []
unfolding format_nat
format_nat-ne-nil zero e = cc
format_nat-ne-nil (suc n) e = map-ne-nil (digits 10 (suc n)) (digits-ne-nil n) e

parse_nat-scan : (s : Text) → s ≢ [] → parse_nat s ≡ scan_decimal 0 s
unfolding parse_nat
parse_nat-scan [] h = absurd (h refl)
parse_nat-scan (c ∷ s) h = refl

scan-format_nat : (n : ℕ) → scan_decimal 0 (format_nat n) ≡ some n
unfolding format_nat
scan-format_nat zero = unfold scan_decimal in refl
scan-format_nat (suc n) =
    scan-map 0 (digits 10 (suc n)) (All-digits 10 (suc n) (omega arith))
    ∙ ap some (value-digits 10 (suc n) (omega arith))

pub parse_nat-format_nat : (n : ℕ) → parse_nat (format_nat n) ≡ some n
parse_nat-format_nat n = parse_nat-scan _ (format_nat-ne-nil n) ∙ scan-format_nat n

parse_signed-digits : (s : Text) → All IsDigit s → parse_signed s ≡ positive (parse_nat s)
unfolding parse_signed
parse_signed-digits [] h = unfold parse_nat in refl
parse_signed-digits (c ∷ s) h = ground arith

parse_signed-minus : (s : Text) → parse_signed (b'-' ∷ s) ≡ negate (parse_nat s)
unfolding parse_signed
parse_signed-minus s = refl

pub parse_signed-format_int : (a : ℤ) → parse_signed (format_int a) ≡ some a
unfolding format_int
parse_signed-format_int (pos n) =
    parse_signed-digits _ (format_nat-IsDigit n) ∙ ap positive (parse_nat-format_nat n)
parse_signed-format_int (negsuc n) =
    parse_signed-minus _ ∙ ap negate (parse_nat-format_nat (suc n)) ∙ ground arith
