-- ===== src/Http/Counter.antt =====
-- The loop of HTTPClient.Do as Go runs it: the counter is a uint, which wraps around at 2 ^ 64, and
-- the condition attempt <= c.maxRetries is tested before each round. The log lines name maxRetries + 1
-- without a wrap-around.
use go_builder_relayer_clien.Prelude.{
  ℕ, zero, suc, ◌+◌, ◌-◌, ◌^◌, ◌%◌, ◌<◌, ◌≡◌, refl, ap, sym, ◌∙◌, arith, true, false, Option, none,
  some, Text, Bytes, leb, if◌then◌else◌,
}
use go_builder_relayer_clien.Prelude.Int.{ℤ}
use go_builder_relayer_clien.Errors.{Error, Result, ok, err}
use go_builder_relayer_clien.Effects.{History, Url, Host, Go, resume}
use go_builder_relayer_clien.Http.{
  HttpClient, RequestOptions, Outcome, finish, again, proceed, target_of, pause, try_once, give_up,
  attempts, http_do,
}
use go_builder_relayer_clien.Http.Exhaustion.{IsDown, pause-ok, try_once-again}

module _ (host : Host) {A : Type 0} (decode : Bytes → Result A) (zero_value : A) where
  -- what a round comes to, where `next` runs the rounds behind it
  unfoldable pub round_end :
      Result (Outcome A) × History
      → (Option ℤ → Error → History → Option (Result A × History))
      → Option (Result A × History)
  round_end (err e, h) next = some (err e, h)
  round_end (ok (finish r), h) next = some (r, h)
  round_end (ok (again delay e), h) next = next delay e h

  module _ (c : HttpClient) (method url target : Text) (opts : RequestOptions) where
    -- a round behind its pause
    unfoldable pub behind_pause :
        ℕ
        → Result (Unit {0}) × History
        → (Option ℤ → Error → History → Option (Result A × History))
        → Option (Result A × History)
    unfolding round_end
    behind_pause attempt (err e, h) next = some (err e, h)
    behind_pause attempt (ok u, h) next =
        round_end (try_once host decode zero_value c method url target opts attempt h) next

    -- The loop and what stands behind it, on fuel: `none` is a loop that has not ended. Where the
    -- counter comes back to 0 no delay is pending, since the last attempt sets none.
    unfoldable pub counted : ℕ → ℕ → Option ℤ → Option Error → History → Option (Result A × History)
    unfolding behind_pause
    counted zero attempt next last h = none
    counted (suc fuel) attempt next last h =
        let rest = λ (next' : Option ℤ) (e : Error) (h' : History).
          counted fuel ((attempt + 1) % 2 ^ 64) next' (some e) h' in
        if leb attempt c.max_retries
        then behind_pause attempt (pause host c attempt next h) rest
        else some (give_up host decode zero_value last h)

    -- the same, where the rounds behind it are a computation
    abbrev resumed : Result (Outcome A) × History → (Option ℤ → Error → Go A) → Result A × History
    resumed x go_on = resume x.0 (λ o. proceed o go_on) x.1

    round_end-resumed :
        (x : Result (Outcome A) × History)
        (next : Option ℤ → Error → History → Option (Result A × History))
        (go_on : Option ℤ → Error → Go A)
        → ((delay : Option ℤ) (e : Error) (h : History) → next delay e h ≡ some (go_on delay e h))
        → round_end x next ≡ some (resumed x go_on)
    unfolding round_end proceed
    round_end-resumed (err e, h) next go_on p = refl
    round_end-resumed (ok (finish r), h) next go_on p = refl
    round_end-resumed (ok (again delay e), h) next go_on p = p delay e h

    -- what a round of `attempts` comes to behind its pause
    abbrev rounds_behind : ℕ → ℕ → Result (Unit {0}) × History → Result A × History
    rounds_behind rounds attempt x =
        resume x.0
          (λ _ h.
            resumed (try_once host decode zero_value c method url target opts attempt h) (λ next' e.
              attempts host decode zero_value rounds c method url target opts (attempt + 1) next'
                (some e)))
          x.1

    attempts_lem :
        (rounds attempt : ℕ) (next : Option ℤ) (last : Option Error) (h : History)
        → attempts host decode zero_value (suc rounds) c method url target opts attempt next last h
          ≡ rounds_behind rounds attempt (pause host c attempt next h)
    unfolding attempts
    attempts_lem rounds attempt next last h = refl

    behind_pause-resumed :
        (rounds attempt : ℕ) (x : Result (Unit {0}) × History)
        (next : Option ℤ → Error → History → Option (Result A × History))
        → ((delay : Option ℤ) (e : Error) (h : History)
            → next delay e h
              ≡ some (
                  attempts host decode zero_value rounds c method url target opts
                    (attempt + 1)
                    delay
                    (some e)
                    h))
        → behind_pause attempt x next ≡ some (rounds_behind rounds attempt x)
    unfolding behind_pause
    behind_pause-resumed rounds attempt (err e, h) next p = refl
    behind_pause-resumed rounds attempt (ok u, h) next p =
        round_end-resumed (try_once host decode zero_value c method url target opts attempt h) next
          _ p

    counted-attempts :
        (rounds attempt : ℕ) (next : Option ℤ) (last : Option Error) (h : History)
        → c.max_retries < 2 ^ 64 - 1
        → rounds + attempt ≡ c.max_retries + 1
        → counted (suc rounds) attempt next last h
          ≡ some
              (attempts host decode zero_value rounds c method url target opts attempt next last h)
    unfolding counted attempts
    counted-attempts zero attempt next last h small size =
        let past : leb attempt c.max_retries ≡ false = ground arith in rw past refl
    counted-attempts (suc rounds) attempt next last h small size =
        let below : leb attempt c.max_retries ≡ true = ground arith in
        let exact : (attempt + 1) % 2 ^ 64 ≡ attempt + 1 = omega arith in
        rw below (
          behind_pause-resumed rounds attempt (pause host c attempt next h) _ (λ delay e h'.
            rw exact (counted-attempts rounds (attempt + 1) delay (some e) h' small (omega arith)))
          ∙ ap some (sym (attempts_lem rounds attempt next last h)))

    behind_pause-again :
        (attempt : ℕ) (x : Result (Unit {0}) × History)
        (next : Option ℤ → Error → History → Option (Result A × History)) {delay : Option ℤ}
        {e : Error}
        → x.0 ≡ ok tt
        → (try_once host decode zero_value c method url target opts attempt x.1).0
          ≡ ok (again delay e)
        → behind_pause attempt x next
          ≡ next delay e (try_once host decode zero_value c method url target opts attempt x.1).1
    unfolding behind_pause round_end
    behind_pause-again attempt (r, h) next rested retried = rw (rested, retried) refl

    counted-never :
        (fuel attempt : ℕ) (next : Option ℤ) (last : Option Error) (h : History)
        → IsDown host method target opts
        → c.max_retries ≡ 2 ^ 64 - 1
        → attempt < 2 ^ 64
        → counted fuel attempt next last h ≡ none
    unfolding counted
    counted-never zero attempt next last h down all small = refl
    counted-never (suc fuel) attempt next last h down all small =
        let below : leb attempt c.max_retries ≡ true = ground arith in
        let (delay, e, retried, _) =
          try_once-again host decode zero_value down c url attempt
            (pause host c attempt next h).1 in
        rw below (
          behind_pause-again attempt (pause host c attempt next h) _
            (pause-ok host decode zero_value down c attempt next h) retried
          ∙ counted-never fuel ((attempt + 1) % 2 ^ 64) delay (some e) _ down all (omega arith))

module _ (host : Host) where
  -- With maxRetries at 2 ^ 64 - 1 the loop of Do ends after no number of tests of its condition
  -- while each request fails or is answered by a retryable status and no pause is interrupted.
  pub http_do-endless :
      {A : Type 0} (decode : Bytes → Result A) (zero_value : A) (c : HttpClient) (method url : Text)
      (opts : RequestOptions) (h : History) (u : Url)
      → IsDown host method (target_of host u opts.params) opts
      → c.max_retries ≡ 2 ^ 64 - 1
      → (tests : ℕ)
      → counted host decode zero_value c method url
          (target_of host u opts.params)
          opts
          tests
          0
          none
          none
          h
        ≡ none
  http_do-endless decode zero_value c method url opts h u down all tests =
      counted-never host decode zero_value c method url (target_of host u opts.params) opts tests 0
        none none h down all (omega arith)

  -- Where the URL can be parsed, the loop of Do, with a counter that wraps around at 2 ^ 64, ends
  -- within maxRetries + 2 tests of its condition for each maxRetries below 2 ^ 64 - 1, and then it
  -- returns what `http_do` returns.
  pub http_do-counted :
      {A : Type 0} (decode : Bytes → Result A) (zero_value : A) (c : HttpClient) (method url : Text)
      (opts : RequestOptions) (h : History) (u : Url)
      → c.max_retries < 2 ^ 64 - 1
      → host.parse_url url ≡ ok u
      → counted host decode zero_value c method url
          (target_of host u opts.params)
          opts
          (suc (suc c.max_retries))
          0
          none
          none
          h
        ≡ some (http_do host decode zero_value (some c) method url opts h)
  unfolding http_do
  http_do-counted decode zero_value c method url opts h u small good =
      rw (good, http_do)
        (counted-attempts host decode zero_value c method url (target_of host u opts.params) opts
          (suc c.max_retries) 0 none none h small (omega arith))
