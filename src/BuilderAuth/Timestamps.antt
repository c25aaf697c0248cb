-- ===== src/BuilderAuth/Timestamps.antt =====
-- The timestamp that is signed.
use go_builder_relayer_clien.Prelude.{ℕ, ◌*◌, ◌^◌, ◌≤◌, ◌<◌, ◌≡◌, ap, ◌∙◌, sym, arith}
use go_builder_relayer_clien.Prelude.Int.{ℤ, pos, mul_int64}
use go_builder_relayer_clien.BuilderAuth.{normalize_builder_timestamp}

module _ (now : ℤ) where
  pub seconds :
      (t : ℕ) → 1 ≤ t → t < 10 ^ 12 → normalize_builder_timestamp now (pos t) ≡ pos (t * 1000)
  unfolding normalize_builder_timestamp mul_int64
  seconds t lo hi = ground arith

  pub millis : (t : ℕ) → 10 ^ 12 ≤ t → normalize_builder_timestamp now (pos t) ≡ pos t
  unfolding normalize_builder_timestamp
  millis t h = ground arith

  -- A time between 10 ^ 9 and 10 ^ 12 seconds is signed as the same number of milliseconds whether
  -- the caller gives seconds or milliseconds, and there a timestamp that is normalised is not changed
  -- again.
  pub normalize-agrees :
      (t : ℕ)
      → 10 ^ 9 ≤ t
      → t < 10 ^ 12
      → (normalize_builder_timestamp now (pos t) ≡ normalize_builder_timestamp now (pos (t * 1000)))
        × (normalize_builder_timestamp now (normalize_builder_timestamp now (pos t))
            ≡ normalize_builder_timestamp now (pos t))
  normalize-agrees t lo hi =
      let e = seconds t (omega arith) hi in
      let e' = millis (t * 1000) (omega arith) in
      (e ∙ sym e', ap (normalize_builder_timestamp now) e ∙ e' ∙ sym e)
