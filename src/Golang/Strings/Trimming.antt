-- ===== src/Golang/Strings/Trimming.antt =====
-- What `strings.TrimSpace` leaves alone.
use mathlib.Core.List.{reverse-cons, reverse-reverse}
use go_builder_relayer_clien.Prelude.{
  ℕ, zero, suc, ◌<◌, ◌≡◌, refl, none, [], ◌∷◌, reverse, arith, Bool, Text, All, All-append,
}
use go_builder_relayer_clien.Golang.Strings.{
  is_space2, is_space3, skip_space, skip_spaces, trim_space,
}

-- a character that neither is white space nor stands in a longer encoding of one
abbrev pub IsSolid : ℕ → Type 0
IsSolid c = (32 < c) × (c < 128)

All-reverse : (s : Text) → All IsSolid s → All IsSolid (reverse s)
All-reverse [] h = tt
All-reverse (c ∷ s) (hc, hs) =
    rw reverse-cons (All-append IsSolid (reverse s) (c ∷ []) (All-reverse s hs) (hc, tt))

skip-solid : (s : Text) → All IsSolid s → skip_space is_space2 is_space3 s ≡ none
unfolding skip_space is_space2 is_space3
skip-solid [] h = refl
skip-solid (a ∷ []) h = ground arith
skip-solid (a ∷ b ∷ []) h = ground arith
skip-solid (a ∷ b ∷ c ∷ s) h = ground arith

skip-solid_back :
    (s : Text)
    → All IsSolid s
    → skip_space (λ b a. is_space2 a b) (λ c b a. is_space3 a b c) s ≡ none
unfolding skip_space is_space2 is_space3
skip-solid_back [] h = refl
skip-solid_back (a ∷ []) h = ground arith
skip-solid_back (a ∷ b ∷ []) h = ground arith
skip-solid_back (a ∷ b ∷ c ∷ s) h = ground arith

skip_spaces-none :
    (two : ℕ → ℕ → Bool) (three : ℕ → ℕ → ℕ → Bool) (fuel : ℕ) (s : Text)
    → skip_space two three s ≡ none
    → skip_spaces two three fuel s ≡ s
unfolding skip_spaces
skip_spaces-none two three zero s h = refl
skip_spaces-none two three (suc fuel) s h = rw (h, skip_spaces)

pub trim_space-solid : (s : Text) → All IsSolid s → trim_space s ≡ s
unfolding trim_space
trim_space-solid s h =
    rw
      (
        skip_spaces-none is_space2 is_space3 _ s (skip-solid s h),
        skip_spaces-none (λ b a. is_space2 a b) (λ c b a. is_space3 a b c) _ (reverse s)
            (skip-solid_back (reverse s) (All-reverse s h)),
      )
      (reverse-reverse s)
