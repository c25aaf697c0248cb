-- ===== src/Errors.antt =====
-- pkg/errors/errors.go, and the Go error values of the program: chains of wrapped errors with
-- `errors.Is` and `Error()`. `HttpError` is the HTTPError of http_client.go.
pub mod Codes
pub mod Sdk
pub mod Predefined
pub mod Laws
use go_builder_relayer_clien.Prelude.{
  ℕ, Bool, false, Option, none, some, ◌++◌, ◌≡◌, refl, ◌⊎◌, inl, inr, Text, codes, ltb, length,
  take, if◌then◌else◌,
}
use go_builder_relayer_clien.Golang.Strconv.{format_nat}
use Sdk.{SdkError, sdk_message, sdk_is}

pub record HttpError : Type 0 where
  pub status_code : ℕ
  pub body : Text
  pub err : Option SdkError

pub data Error : Type 0 where
  sdk : SdkError → Error
  http : HttpError → Error
  -- errors.New, and fmt.Errorf with no %w
  plain : Text → Error
  -- fmt.Errorf with a %w: the text before it, the error, the text behind it
  wrapped : Text → Error → Text → Error
  -- an error of another package, of which only the text is known; it wraps no SDKError
  foreign : Text → Error

-- fmt.Errorf("before: %w", e)
abbrev pub wrap : Text → Error → Error
wrap before e = wrapped before e (codes "")

abbrev pub max_error_body_chars : ℕ
max_error_body_chars = 512

-- (*HTTPError).Error
unfoldable pub http_message : HttpError → Text
unfolding format_nat
http_message e =
    let body =
      if ltb max_error_body_chars (length e.body)
      then take max_error_body_chars e.body ++ codes "...(truncated)"
      else e.body in
    codes "http error: status " ++ (format_nat e.status_code ++ (codes " body=" ++ body))

-- Error()
unfoldable pub message : Error → Text
unfolding sdk_message http_message
message (sdk e) = sdk_message e
message (http e) = http_message e
message (plain t) = t
message (wrapped before e after) = before ++ (message e ++ after)
message (foreign t) = t

-- What a call of `errors.Is` comes to: an answer, or a nil pointer dereference.
pub data Verdict : Type 0 where
  answer : Bool → Verdict
  nil_dereference : Verdict

-- (*HTTPError).Unwrap returns its *SDKError as an `error`: an interface that is not nil also where
-- the pointer is, so that `errors.Is` calls (*SDKError).Is on a nil receiver.
unfoldable pub unwrapped_is : Option SdkError → SdkError → Verdict
unfolding sdk_is
unwrapped_is none target = nil_dereference
unwrapped_is (some e) target = answer (sdk_is e target)

-- errors.Is(e, target) of a target that is an SDKError
unfoldable pub errors_is : Error → SdkError → Verdict
unfolding sdk_is unwrapped_is
errors_is (sdk e) target = answer (sdk_is e target)
errors_is (http e) target = unwrapped_is e.err target
errors_is (plain t) target = answer false
errors_is (wrapped before e after) target = errors_is e target
errors_is (foreign t) target = answer false

-- (*HTTPError).Code
unfoldable pub http_code : HttpError → Text
http_code e = elim e.err [ none ↦ codes "" | some s ↦ s.code ]

-- The result of a function that returns a value and an error.
pub data Result {ℓ} (T : Type ℓ) : Type ℓ where
  err : Error → Result T
  ok : T → Result T

-- if err != nil { return err }
infixl 5 ◌>>=◌
abbrev pub ◌>>=◌ {ℓ κ} : {T : Type ℓ} {S : Type κ} → Result T → (T → Result S) → Result S
err e >>= next = err e
ok value >>= next = next value

-- if err != nil { return fmt.Errorf("before: %w", err) }
abbrev pub wrap_error {ℓ} : {A : Type ℓ} → Text → Result A → Result A
wrap_error before (ok a) = ok a
wrap_error before (err e) = err (wrap before e)

pub Result-cases {ℓ} :
    {A : Type ℓ} (r : Result A) → ((e : Error) × (r ≡ err e)) ⊎ ((a : A) × (r ≡ ok a))
Result-cases (ok a) = inr (a, refl)
Result-cases (err e) = inl (e, refl)

pub >>=-eq-ok {ℓ κ} :
    {T : Type ℓ} {S : Type κ} (r : Result T) (next : T → Result S) {value : S}
    → (r >>= next) ≡ ok value
    → (first : T) × (r ≡ ok first) × (next first ≡ ok value)
>>=-eq-ok (err e) next p = cc
>>=-eq-ok (ok first) next p = (first, refl, p)

pub wrap_error-eq-ok {ℓ} :
    {A : Type ℓ} (before : Text) (r : Result A) {a : A} → wrap_error before r ≡ ok a → r ≡ ok a
wrap_error-eq-ok before (ok a) h = h
wrap_error-eq-ok before (err e) h = cc

pub ok-injective {ℓ} : {A : Type ℓ} {a b : A} → ok a ≡ ok b → a ≡ b
ok-injective e = cc
