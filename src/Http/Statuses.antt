-- ===== src/Http/Statuses.antt =====
-- Which responses end a call, and what their errors are to `errors.Is`.
use go_builder_relayer_clien.Prelude.{
  ℕ, ◌<◌, ◌≡◌, ◌≢◌, ◌↔◌, refl, arith, Option, none, some, Text, Bytes,
}
use go_builder_relayer_clien.Errors.{wrapped, nil_dereference, errors_is, unwrapped_is}
use go_builder_relayer_clien.Errors.Sdk.{SdkError}
use go_builder_relayer_clien.Http.{http_error_for_status, http_error}

-- A status of 400 to 499 that `httpErrorForStatus` has no SDKError for.
abbrev pub IsUnlisted : ℕ → Type 0
IsUnlisted s = (s < 500) × (s ≢ 400) × (s ≢ 401) × (s ≢ 403) × (s ≢ 429)

for_status-none : (s : ℕ) → (http_error_for_status s ≡ none) ↔ IsUnlisted s
unfolding http_error_for_status
for_status-none s = ground arith

unwrapped-none :
    (o : Option SdkError) (target : SdkError)
    → (unwrapped_is o target ≡ nil_dereference) ↔ (o ≡ none)
unfolding unwrapped_is
unwrapped-none none target = (λ _. refl, λ _. refl)
unwrapped-none (some e) target = (λ h. cc, λ h. cc)

-- `errors.Is` of the error for a response dereferences a nil pointer exactly where the status is
-- below 500 and none of 400, 401, 403 and 429, whatever SDKError it is compared with, and however
-- the caller has wrapped it.
pub errors_is_panics_iff :
    (s : ℕ) (body : Bytes) (before after : Text) (target : SdkError)
    → (errors_is (wrapped before (http_error s body) after) target ≡ nil_dereference) ↔ IsUnlisted s
unfolding errors_is
errors_is_panics_iff s body before after target =
    let (to, from) = unwrapped-none (http_error_for_status s) target in
    let (to', from') = for_status-none s in (λ h. to' (to h), λ h. from (from' h))
