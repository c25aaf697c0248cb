-- ===== src/Http.antt =====
-- http_client.go: one request with retries. `HttpError` stands in Errors.
pub mod Exhaustion
pub mod Counter
pub mod Protocol
pub mod Requests
pub mod Outcomes
pub mod Attempts
pub mod Backoff
pub mod Statuses
use go_builder_relayer_clien.Prelude.{
  ℕ, zero, suc, ◌+◌, ◌-◌, ◌^◌, Bool, true, false, ◌&&◌, ◌||◌, Option, none, some, List, [], ◌∷◌,
  Text, Bytes, codes, is_empty, ltb, leb, ◌==◌, if◌then◌else◌,
}
use go_builder_relayer_clien.Prelude.Int.{ℤ, pos, mul_int64, leb_ℤ, pos_part, neg_part}
use go_builder_relayer_clien.Golang.Strings.{trim_space}
use go_builder_relayer_clien.Golang.Strconv.{atoi}
use go_builder_relayer_clien.Golang.Header.{Header, header_get, header_set, add_all}
use go_builder_relayer_clien.Golang.Values.{set_all, encode, parse_query}
use go_builder_relayer_clien.Errors.{Error, http, plain, wrap, Result, ok, err}
use go_builder_relayer_clien.Errors.Sdk.{SdkError}
use go_builder_relayer_clien.Errors.Predefined.{
  err_bad_request, err_unauthorized, err_too_many_requests, err_internal_server_error,
}
use go_builder_relayer_clien.Effects.{
  HttpRequest, Reply, failed, broken, response, LogLine, request_failed, read_failed,
  retryable_status, gave_up, exchange, slept, warned, errored, Url, Host, Go, ◌>>=◌, ◌>>◌, lift,
  pure, fail, emit, ask,
}

abbrev pub default_max_retries : ℕ
default_max_retries = 3

-- 500 ms, in nanoseconds as every duration
abbrev pub default_base_delay : ℤ
default_base_delay = pos 500_000_000

abbrev pub max_backoff_exponent : ℕ
max_backoff_exponent = 10

pub record RequestOptions : Type 0 where
  pub headers : Header
  pub params : List (Text × Text)
  pub body : Bytes

-- The *http.Client is the host's `round_trip`. The uint maxRetries is a number without a bound here;
-- Http/Counter has the loop with its wrap-around.
pub record HttpClient : Type 0 where
  pub max_retries : ℕ
  pub base_delay : ℤ

-- NewHTTPClient with options: WithMaxRetries(n) and WithBaseDelay(d)
pub data HttpClientOption : Type 0 where
  with_max_retries : ℕ → HttpClientOption
  with_base_delay : ℤ → HttpClientOption

unfoldable pub apply_option : HttpClientOption → HttpClient → HttpClient
apply_option (with_max_retries n) c = record c { max_retries = n }
apply_option (with_base_delay d) c = record c { base_delay = d }

apply_options : List HttpClientOption → HttpClient → HttpClient
unfolding apply_option
apply_options [] c = c
apply_options (opt ∷ opts) c = apply_options opts (apply_option opt c)

unfoldable pub new_http_client : List HttpClientOption → HttpClient
unfolding apply_options
new_http_client opts =
    apply_options opts
      (record { max_retries = default_max_retries; base_delay = default_base_delay })

unfoldable pub http_error_for_status : ℕ → Option SdkError
http_error_for_status status =
    if status == 400
    then some err_bad_request
    else if status == 401 || status == 403
    then some err_unauthorized
    else if status == 429
    then some err_too_many_requests
    else if leb 500 status
    then some err_internal_server_error
    else none

-- t.Sub(u) of a later time: the difference, or the greatest duration
abbrev sub_time : ℤ → ℤ → ℤ
sub_time t u =
    let d = pos_part t + neg_part u - (pos_part u + neg_part t) in
    if ltb d (2 ^ 63) then pos d else pos (2 ^ 63 - 1)

until_time : Option ℤ → ℤ → Option ℤ
until_time none now = none
until_time (some t) now = if leb_ℤ t now then some (pos 0) else some (sub_time t now)

unfoldable pub after_seconds : ℤ → ℤ
after_seconds seconds = if leb_ℤ seconds (pos 0) then pos 0 else mul_int64 seconds 1_000_000_000

-- parseRetryAfter; the second result `false` is `none`
unfoldable pub parse_retry_after : (Text → Option ℤ) → Text → ℤ → Option ℤ
unfolding until_time
parse_retry_after parse_time value now =
    let trimmed = trim_space value in
    if is_empty trimmed then none else elim (atoi trimmed) [
      | some seconds ↦ some (after_seconds seconds)
      | none ↦ until_time (parse_time trimmed) now
    ]

unfoldable pub exponential_backoff : ℤ → ℕ → ℤ
exponential_backoff base_delay attempt =
    mul_int64 base_delay
      (2 ^ (if ltb max_backoff_exponent attempt then max_backoff_exponent else attempt))

-- What one attempt comes to: the end of the call, or a retry with the delay that the server asked
-- for and the error so far.
pub data Outcome (A : Type 0) : Type 0 where
  finish : Result A → Outcome A
  again : Option ℤ → Error → Outcome A

-- the end of the call, or the next round
unfoldable pub proceed : {A : Type 0} → Outcome A → (Option ℤ → Error → Go A) → Go A
proceed (finish r) k = lift r
proceed (again next e) k = k next e

abbrev pub is_retryable : ℕ → Bool
is_retryable status = leb 500 status || status == 429

abbrev pub http_error : ℕ → Bytes → Error
http_error status body =
    http (record { status_code = status; body = body; err = http_error_for_status status })

module _ (host : Host) where
  -- sleepWithContext of client.go
  unfoldable pub sleep_with_context : ℤ → Go (Unit {0})
  sleep_with_context d = if leb_ℤ d (pos 0) then pure tt else do
    fired ← ask (λ h. host.timer h d)
    emit (slept d fired)
    lift (elim fired [ none ↦ ok tt | some e ↦ err e ])

  unfoldable pub send_once : HttpRequest → Go Reply
  send_once req = do reply ← ask (λ h. host.round_trip h req); emit (exchange req reply); pure reply

  -- the request of every attempt
  abbrev pub request_of : Text → Text → RequestOptions → HttpRequest
  request_of method url opts =
      let accept = header_set (codes "Accept") (codes "application/json") [] in
      let typed =
        if is_empty opts.body
        then accept
        else header_set (codes "Content-Type") (codes "application/json") accept in
      record { method = method; url = url; headers = add_all opts.headers typed; body = opts.body }

  -- parsed.String() behind the parameters
  abbrev pub target_of : Url → List (Text × Text) → Text
  target_of u [] = host.url_string u
  target_of u (p ∷ params) =
      host.url_string
        (record u { raw_query = encode (set_all (p ∷ params) (parse_query u.raw_query)) })

  -- the delay before an attempt but the first
  unfoldable pub pause : HttpClient → ℕ → Option ℤ → Go (Unit {0})
  pause c zero next = pure tt
  pause c (suc attempt) none = sleep_with_context (exponential_backoff c.base_delay attempt)
  pause c (suc attempt) (some delay) = sleep_with_context delay

  warn_if : Bool → LogLine → Go (Unit {0})
  warn_if true line = emit (warned line)
  warn_if false line = pure tt

  -- the delay that a 429 response asks for, which is read only if an attempt is left
  retry_delay : Bool → ℕ → Header → Go (Option ℤ)
  retry_delay more status headers =
      if more && status == 429
      then ask (λ h.
        parse_retry_after host.parse_time (header_get (codes "Retry-After") headers) (host.now h))
      else pure none

  -- a status of 500 or more, or 429
  unfoldable pub retry_later :
      {A : Type 0} → HttpClient → Text → Text → ℕ → ℕ → Header → Bytes → Go (Outcome A)
  unfolding warn_if retry_delay
  retry_later c method url attempt status headers body = do
    delay ← retry_delay (ltb attempt c.max_retries) status headers
    warn_if (ltb attempt c.max_retries)
        (retryable_status method url (attempt + 1) (c.max_retries + 1))
    pure (again delay (http_error status body))

  module _ {A : Type 0} (decode : Bytes → Result A) (zero_value : A) where
    -- a successful response: an empty body leaves `out` as it is
    unfoldable pub decoded : Bytes → Result A
    decoded [] = ok zero_value
    decoded (b ∷ body) = elim (decode (b ∷ body)) [
      | ok a ↦ ok a
      | err e ↦ err (wrap (codes "decode response: ") e)
    ]

    unfoldable pub judge : HttpClient → Text → Text → ℕ → Reply → Go (Outcome A)
    unfolding warn_if retry_delay
    judge c method url attempt (failed e) = do
      warn_if (ltb attempt c.max_retries)
          (request_failed method url (attempt + 1) (c.max_retries + 1))
      pure (again none (wrap (codes "request failed: ") e))
    judge c method url attempt (broken s b e) = do
      warn_if (ltb attempt c.max_retries) (read_failed method url (attempt + 1) (c.max_retries + 1))
      pure (again none (wrap (codes "read response: ") e))
    judge c method url attempt (response status headers body) =
        if is_retryable status
        then retry_later c method url attempt status headers body
        else if leb 400 status
        then pure (finish (err (http_error status body)))
        else pure (finish (decoded body))

    -- behind the pause: the body of the loop
    unfoldable pub try_once : HttpClient → Text → Text → Text → RequestOptions → ℕ → Go (Outcome A)
    try_once c method url target opts attempt = elim (host.new_request method target) [
      | err e ↦ pure (finish (err (wrap (codes "build request: ") e)))
      | ok _ ↦ do
        reply ← send_once (request_of method target opts)
        judge c method url attempt reply
    ]

    -- what stands behind the loop
    unfoldable pub give_up : Option Error → Go A
    give_up none = fail (plain (codes "max retries exceeded"))
    give_up (some e) = do emit (errored (gave_up e)); fail (wrap (codes "max retries exceeded: ") e)

    -- The loop, with the rounds that are left, the attempt, nextRetryDelay and lastErr.
    unfoldable pub attempts :
        ℕ → HttpClient → Text → Text → Text → RequestOptions → ℕ → Option ℤ → Option Error → Go A
    attempts zero c method url target opts attempt next last = give_up last
    attempts (suc rounds) c method url target opts attempt next last = do
      pause c attempt next
      outcome ← try_once c method url target opts attempt
      proceed outcome
          (λ next' e. attempts rounds c method url target opts (attempt + 1) next' (some e))

    -- (*HTTPClient).Do; `none` is a nil client. Nil options are the empty ones.
    unfoldable pub http_do : Option HttpClient → Text → Text → RequestOptions → Go A
    http_do none method url opts = fail (plain (codes "http client is nil"))
    http_do (some c) method url opts = elim (host.parse_url url) [
      | err e ↦ fail (wrap (codes "parse url: ") e)
      | ok u ↦ attempts (suc c.max_retries) c method url (target_of u opts.params) opts 0 none none
    ]
