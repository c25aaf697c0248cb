-- ===== src/Http/Backoff.antt =====
-- The delays between attempts.
use Prim.Native.Nat.{min}
use native.Mathlib.Nat.{pow-le-pow_right}
use go_builder_relayer_clien.Golang.Strconv.RoundTrip.{parse_signed-format_int}
use go_builder_relayer_clien.Utils.Integers.{trim_space-format_int, format_int-ne-nil}
use go_builder_relayer_clien.Prelude.{
  is_empty-ne-nil, ℕ, ◌*◌, ◌^◌, ◌≤◌, ◌<◌, ◌≡◌, ap, ◌∙◌, arith, Option, some, Text, ltb, Bool-cases,
  inl, inr, ◌⊎◌, leb, leb→le, ltb→lt, true, ◌+◌, ◌-◌, is_empty, none, Option-cases, refl, subst,
}
use go_builder_relayer_clien.Prelude.Int.{
  ℤ, pos, mul_int64, mul_int64_exact, negsuc, ◌≤ℤ◌, pos_part, neg_part, IsInt64, mul_int64-IsInt64,
  leb_ℤ,
}
use go_builder_relayer_clien.Golang.Strings.{trim_space}
use go_builder_relayer_clien.Golang.Strconv.{atoi, format_int}
use go_builder_relayer_clien.Effects.{Host, History}
use go_builder_relayer_clien.Errors.{ok}
use go_builder_relayer_clien.Http.{
  sub_time, until_time, exponential_backoff, parse_retry_after, sleep_with_context, after_seconds,
}

-- A base delay below 2 ^ 53 ns, some 104 days, is doubled for each attempt up to the argument ten, which is
-- the eleventh retry, and stays there, with no overflow.
pub exponential_backoff_lem :
    (d k : ℕ) → d < 2 ^ 53 → exponential_backoff (pos d) k ≡ pos (d * 2 ^ min k 10)
unfolding exponential_backoff
exponential_backoff_lem d k h = elim (Bool-cases (ltb 10 k)) [
  | inl late ↦
      let e : min k 10 ≡ 10 = ground arith in rw (late, e) (mul_int64_exact d 1024 (omega arith))
  | inr early ↦
      let e : min k 10 ≡ k = ground arith in
      let le : k ≤ 10 = ground arith in
      let power : 2 ^ k ≤ 2 ^ 10 = pow-le-pow_right (omega arith) le in
      let fits : d * 2 ^ k ≤ d * 1024 = grind arith in
      rw (early, e) (mul_int64_exact d (2 ^ k) (omega arith))
]

atoi-format_int : (s : ℕ) → s < 2 ^ 63 → atoi (format_int (pos s)) ≡ some (pos s)
unfolding atoi
atoi-format_int s h = rw (parse_signed-format_int (pos s), atoi) (ground arith)

after_seconds_exact : (s : ℕ) → s ≤ 9_223_372_036 → after_seconds (pos s) ≡ pos (s * 1_000_000_000)
unfolding after_seconds mul_int64
after_seconds_exact s h = ground arith

skipped :
    (s : ℕ) (host : Host) (h : History)
    → 9_223_372_037 ≤ s
    → s ≤ 18_446_744_073
    → sleep_with_context host (after_seconds (pos s)) h ≡ (ok tt, h)
unfolding sleep_with_context after_seconds mul_int64
skipped s host h lo hi = ground arith

module _ (parse_time : Text → Option ℤ) (now : ℤ) where
  retry_after_seconds :
      (s : ℕ)
      → s < 2 ^ 63
      → parse_retry_after parse_time (format_int (pos s)) now ≡ some (after_seconds (pos s))
  unfolding parse_retry_after
  retry_after_seconds s h =
      rw (trim_space-format_int (pos s), is_empty-ne-nil _ (format_int-ne-nil (pos s)))
        (rw (atoi-format_int s h))

  -- A number of seconds whose nanoseconds fit an int64 is the delay.
  pub parse_retry_after_exact :
      (s : ℕ)
      → s ≤ 9_223_372_036
      → parse_retry_after parse_time (format_int (pos s)) now ≡ some (pos (s * 1_000_000_000))
  parse_retry_after_exact s h =
      retry_after_seconds s (omega arith) ∙ ap some (after_seconds_exact s h)

  -- From 9223372037 to 18446744073 seconds the product overflows to a negative delay, and the pause
  -- that the server asked for is skipped.
  pub parse_retry_after_overflow :
      (s : ℕ) (host : Host) (h : History)
      → 9_223_372_037 ≤ s
      → s ≤ 18_446_744_073
      → (d : ℤ) × (parse_retry_after parse_time (format_int (pos s)) now ≡ some d)
        × (sleep_with_context host d h ≡ (ok tt, h))
  parse_retry_after_overflow s host h lo hi =
      (after_seconds (pos s), retry_after_seconds s (omega arith), skipped s host h lo hi)

some-injective : {a b : ℤ} → some a ≡ some b → a ≡ b
some-injective e = cc

-- A delay that is negative comes of a number of seconds that is too large.
abbrev pub IsSound : Text → ℤ → Type 0
IsSound value d =
    IsInt64 d
    × ((pos 0 ≤ℤ d) ⊎ ((n : ℕ) × (atoi (trim_space value) ≡ some (pos n)) × (9_223_372_036 < n)))

after_seconds-IsInt64 : (s : ℤ) → IsInt64 (after_seconds s)
unfolding after_seconds
after_seconds-IsInt64 s = elim (Bool-cases (leb_ℤ s (pos 0))) [
  | inl early ↦ rw early (omega arith, omega arith)
  | inr late ↦ rw late (mul_int64-IsInt64 s 1_000_000_000)
]

seconds-IsSound :
    (value : Text) (s : ℤ) → atoi (trim_space value) ≡ some s → IsSound value (after_seconds s)
unfolding after_seconds
seconds-IsSound value (negsuc n) e =
    let early : leb_ℤ (negsuc n) (pos 0) ≡ true = ground arith in
    rw early ((omega arith, omega arith), inl (omega arith))
seconds-IsSound value (pos n) e = elim (Bool-cases (leb n 9_223_372_036)) [
  | inl fits ↦
      let le : n ≤ 9_223_372_036 = leb→le n 9_223_372_036 fits in
      rw (after_seconds_exact n le) ((omega arith, omega arith), inl (omega arith))
  | inr large ↦
      let more : 9_223_372_036 < n = ground arith in
      (after_seconds-IsInt64 (pos n), inr (n, e, more))
]

-- the difference of two times, where it is positive
sub_time_lem : (t u : ℤ) → (n : ℕ) × (sub_time t u ≡ pos n) × (n < 2 ^ 63)
sub_time_lem t u =
    let n = pos_part t + neg_part u - (pos_part u + neg_part t) in
    elim (Bool-cases (ltb n (2 ^ 63))) [
      | inl small ↦ (n, rw small refl, ltb→lt n (2 ^ 63) small)
      | inr large ↦ (2 ^ 63 - 1, rw large refl, omega arith)
    ]

date-IsSound :
    (value : Text) (o : Option ℤ) (now d : ℤ) → until_time o now ≡ some d → IsSound value d
unfolding until_time
date-IsSound value none now d p = cc
date-IsSound value (some t) now d p = elim (Bool-cases (leb_ℤ t now)) [
  | inl past ↦
      let e : pos 0 ≡ d = some-injective (rw past at p) in
      rw (← e) ((omega arith, omega arith), inl (omega arith))
  | inr later ↦
      let e = some-injective (rw later at p) in
      let (n, is, small) = sub_time_lem t now in
      rw (← e, is) ((small, omega arith), inl (omega arith))
]

-- The delay that a Retry-After header asks for is an int64, and it is negative only where the header
-- is a number above 9223372036.
pub parse_retry_after-IsSound :
    (parse_time : Text → Option ℤ) (value : Text) (now d : ℤ)
    → parse_retry_after parse_time value now ≡ some d
    → IsSound value d
unfolding parse_retry_after until_time
parse_retry_after-IsSound parse_time value now d p =
    elim (Bool-cases (is_empty (trim_space value))) [
      | inl nothing ↦ cc (rw nothing at p)
      | inr there ↦ elim (Option-cases (atoi (trim_space value))) [
        | inl none_read ↦
            date-IsSound value (parse_time (trim_space value)) now d (rw (there, none_read) at p)
        | inr (s, e) ↦
            let is : after_seconds s ≡ d = some-injective (rw (there, e) at p) in
            subst (IsSound value) is (seconds-IsSound value s e)
      ]
    ]
