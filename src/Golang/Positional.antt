-- ===== src/Golang/Positional.antt =====
-- Numbers in positional notation, most significant digit first: decimal digits in base 10, the
-- bytes of `big.Int.Bytes` in base 256.
use native.Mathlib.Nat.{pow-zero, pow-suc}
use go_builder_relayer_clien.Prelude.{
  ℕ, zero, suc, ◌+◌, ◌*◌, ◌/◌, ◌%◌, ◌^◌, ◌≤◌, ◌<◌, ◌≡◌, refl, ap, ◌∙◌, List, [], ◌∷◌, ◌++◌, arith,
  ◌==◌, if◌then◌else◌, Bool-cases, inl, inr, length, All, replicate,
}

-- the digits of `n` in front of `out`; the fuel bounds the number of digits
unfoldable pub digits_from : ℕ → ℕ → ℕ → List ℕ → List ℕ
digits_from b zero n out = out
digits_from b (suc fuel) n out =
    let rest = digits_from b fuel (n / b) ((n % b) ∷ out) in if n == 0 then out else rest

-- No digit at all for 0; `n` digits are always enough.
unfoldable pub digits : ℕ → ℕ → List ℕ
unfolding digits_from
digits b n = digits_from b n n []

-- the number that digits spell behind `acc`
abbrev pub value_from : ℕ → ℕ → List ℕ → ℕ
value_from b acc [] = acc
value_from b acc (d ∷ ds) = value_from b (acc * b + d) ds

abbrev pub value : ℕ → List ℕ → ℕ
value b ds = value_from b 0 ds

pub div_round : (n b : ℕ) → n / b * b + n % b ≡ n
div_round n b = omega arith

div_lt : (n b f : ℕ) → 2 ≤ b → n ≤ suc f → n / b ≤ f
div_lt n b f h k = grind (arith, div_round n b)

value-digits_from :
    (b fuel n : ℕ) (out : List ℕ)
    → 2 ≤ b
    → n ≤ fuel
    → value_from b 0 (digits_from b fuel n out) ≡ value_from b n out
unfolding digits_from
value-digits_from b zero n out h k = let e : n ≡ 0 = omega arith in rw e
value-digits_from b (suc fuel) n out h k = elim (Bool-cases (n == 0)) [
  | inl e ↦ let z : n ≡ 0 = ground arith in rw z
  | inr e ↦ rw e (
      rw (value-digits_from b fuel (n / b) ((n % b) ∷ out) h (div_lt n b fuel h k))
        (rw (div_round n b)))
]

-- The digits of a number spell it.
pub value-digits : (b n : ℕ) → 2 ≤ b → value b (digits b n) ≡ n
unfolding digits
value-digits b n h = value-digits_from b n n [] h (omega arith)

All-digits_from :
    (b fuel n : ℕ) (out : List ℕ)
    → 2 ≤ b
    → All (λ d. d < b) out
    → All (λ d. d < b) (digits_from b fuel n out)
unfolding digits_from
All-digits_from b zero n out h k = k
All-digits_from b (suc fuel) n out h k = elim (Bool-cases (n == 0)) [
  | inl e ↦ rw e k
  | inr e ↦ rw e (All-digits_from b fuel (n / b) ((n % b) ∷ out) h (omega arith, k))
]

pub All-digits : (b n : ℕ) → 2 ≤ b → All (λ d. d < b) (digits b n)
unfolding digits
All-digits b n h = All-digits_from b n n [] h tt

pub value_from-append :
    (b a : ℕ) (xs ys : List ℕ) → value_from b a (xs ++ ys) ≡ value_from b (value_from b a xs) ys
value_from-append b a [] ys = refl
value_from-append b a (x ∷ xs) ys = value_from-append b (a * b + x) xs ys

-- Leading zeros do not change a number.
pub value-replicate : (b k : ℕ) (ds : List ℕ) → value b (replicate k 0 ++ ds) ≡ value b ds
value-replicate b zero ds = refl
value-replicate b (suc k) ds =
    ap (λ (t : ℕ). value_from b t (replicate k 0 ++ ds)) (omega arith) ∙ value-replicate b k ds

value_from-shift : (b a : ℕ) (ds : List ℕ) → value_from b a ds ≡ a * b ^ length ds + value b ds
value_from-shift b a [] = rw pow-zero (omega arith)
value_from-shift b a (d ∷ ds) =
    rw (value_from-shift b (a * b + d) ds, value_from-shift b (0 * b + d) ds, pow-suc) (omega arith)

pub value-append :
    (b : ℕ) (xs ys : List ℕ) → value b (xs ++ ys) ≡ value b xs * b ^ length ys + value b ys
value-append b xs ys = value_from-append b 0 xs ys ∙ value_from-shift b (value b xs) ys

-- `k` digits spell a number below the `k`th power of the base.
pub value-lt : (b : ℕ) (ds : List ℕ) → All (λ d. d < b) ds → value b ds < b ^ length ds
value-lt b [] h = rw pow-zero (omega arith)
value-lt b (d ∷ ds) (hd, hs) =
    let shift = value_from-shift b (0 * b + d) ds in
    let small = value-lt b ds hs in
    let rest : d * b ^ length ds + b ^ length ds ≤ b ^ length ds * b = grind arith in
    rw pow-suc (omega (arith, shift))
