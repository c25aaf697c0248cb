-- ===== src/Http/Protocol.antt =====
-- The retry protocol as a relation.
pub mod Attempt
pub mod Calls
use go_builder_relayer_clien.Prelude.{
  ℕ, zero, suc, ◌<◌, ◌≡◌, false, Option, none, some, List, [], ◌∷◌, Text, Bytes, codes, ◌==◌,
  if◌then◌else◌,
}
use go_builder_relayer_clien.Prelude.Int.{ℤ, pos, leb_ℤ}
use go_builder_relayer_clien.Golang.Header.{Header, header_get}
use go_builder_relayer_clien.Errors.{Error, err}
use go_builder_relayer_clien.Effects.{
  Reply, failed, broken, response, exchange, signer_exchange, slept, checked, warned, errored,
  History, Host,
}
use go_builder_relayer_clien.Http.{HttpClient, is_retryable, exponential_backoff, parse_retry_after}
use go_builder_relayer_clien.Http.Outcomes.{IsRetried}

-- what a call does that the server can see: it waits, to the end or up to an error of
-- the context, or gets a reply
pub data Act : Type 0 where
  waited : ℤ → Option Error → Act
  got : Reply → Act

-- the acts of a history, newest first
abbrev pub acts : History → List Act
acts [] = []
acts (exchange req reply ∷ h) = got reply ∷ acts h
acts (signer_exchange req reply ∷ h) = acts h
acts (slept d e ∷ h) = waited d e ∷ acts h
acts (checked e ∷ h) = acts h
acts (warned l ∷ h) = acts h
acts (errored l ∷ h) = acts h

-- the pause before an attempt: none before the first one, then what the server asked for or the
-- backoff
abbrev pub delay : HttpClient → ℕ → Option ℤ → ℤ
delay c zero next = pos 0
delay c (suc k) none = exponential_backoff c.base_delay k
delay c (suc k) (some d) = d

-- A pause that is not positive is none.
abbrev pub after_pause : ℤ → List Act → List Act
after_pause d before = if leb_ℤ d (pos 0) then before else waited d none ∷ before

-- what a reply asks for, at a time: only a 429 response does
abbrev pub asked_delay : (Text → Option ℤ) → ℤ → Reply → Option ℤ
asked_delay parse_time now (failed e) = none
asked_delay parse_time now (broken s b e) = none
asked_delay parse_time now (response s hd b) =
    if s == 429
    then parse_retry_after parse_time (header_get (codes "Retry-After") hd) now
    else none

-- The attempts from the one with number `k` on, from the acts before to the acts behind.
pub data Follows (host : Host) (c : HttpClient) (method target : Text)
    : ℕ → Option ℤ → List Act → List Act → Type 0 where
  -- the pause is interrupted
  interrupted :
      {k : ℕ} {next : Option ℤ} {before after : List Act} (e : Error)
      → leb_ℤ (delay c k next) (pos 0) ≡ false
      → after ≡ waited (delay c k next) (some e) ∷ before
      → Follows host c method target k next before after
  -- the request cannot be built
  unbuilt :
      {k : ℕ} {next : Option ℤ} {before after : List Act} (e : Error)
      → host.new_request method target ≡ err e
      → after ≡ after_pause (delay c k next) before
      → Follows host c method target k next before after
  -- a reply that is not retried ends the call
  decided :
      {k : ℕ} {next : Option ℤ} {before after : List Act} (s : ℕ) (hd : Header) (b : Bytes)
      → is_retryable s ≡ false
      → after ≡ got (response s hd b) ∷ after_pause (delay c k next) before
      → Follows host c method target k next before after
  -- so does the last attempt
  exhausted :
      {k : ℕ} {next : Option ℤ} {before after : List Act} (reply : Reply)
      → IsRetried reply
      → k ≡ c.max_retries
      → after ≡ got reply ∷ after_pause (delay c k next) before
      → Follows host c method target k next before after
  -- any other reply leads to the next attempt, with the pause that it asks for
  retried :
      {k : ℕ} {next : Option ℤ} {before after : List Act} (reply : Reply) (now : ℤ)
      → IsRetried reply
      → k < c.max_retries
      → Follows host c method target
          (suc k)
          (asked_delay host.parse_time now reply)
          (got reply ∷ after_pause (delay c k next) before)
          after
      → Follows host c method target k next before after
