-- ===== src/Effects/Preserves.antt =====
-- Computations that keep a property of every event, by the ways to build a computation.
use go_builder_relayer_clien.Prelude.{◌≡◌, ap, All, Bool, true, false, if◌then◌else◌, inl, inr}
use go_builder_relayer_clien.Errors.{Result, ok, Result-cases}
use go_builder_relayer_clien.Effects.{Event, History, Go, ◌>>=◌, lift, emit, ask}

-- Where each event of the history has `P`, so has each behind `m`.
pub record Preserves (P : Event → Type 0) {A : Type 0} (m : Go A) : Type 0 where
  pub at : (h : History) → All P h → All P (m h).1

module _ {P : Event → Type 0} where
  pub Preserves-lift : {A : Type 0} (r : Result A) → Preserves P (lift r)
  Preserves-lift r = record { at = λ h p. p }

  pub Preserves-ask : {A : Type 0} (f : History → A) → Preserves P (ask f)
  Preserves-ask f = record { at = λ h p. p }

  pub Preserves-emit : (e : Event) → P e → Preserves P (emit e)
  Preserves-emit e q = record { at = λ h p. (q, p) }

  pub Preserves-if :
      {A : Type 0} (b : Bool) (m k : Go A)
      → Preserves P m
      → Preserves P k
      → Preserves P (if b then m else k)
  Preserves-if true m k p q = p
  Preserves-if false m k p q = q

  -- The second computation may rely on what the first one returned.
  pub Preserves-bind_of :
      {A B : Type 0} (m : Go A) (f : A → Go B)
      → Preserves P m
      → ((a : A) (h h' : History) → m h ≡ (ok a, h') → Preserves P (f a))
      → Preserves P (m >>= f)
  Preserves-bind_of {A} m f first second = record {
    at = λ h p. elim (Result-cases (m h).0) [
      | inl (e, bad) ↦ rw bad (first.at h p)
      | inr (a, good) ↦ rw good (
          (second a h (m h).1 (ap (λ (r : Result A). (r, (m h).1)) good)).at (m h).1 (first.at h p))
    ];
  }

  pub Preserves-bind :
      {A B : Type 0} (m : Go A) (f : A → Go B)
      → Preserves P m
      → ((a : A) → Preserves P (f a))
      → Preserves P (m >>= f)
  Preserves-bind m f first second = Preserves-bind_of m f first (λ a h h' p. second a)
