-- ===== src/Http/Attempts.antt =====
-- The retry loop: the requests that it sends.
use go_builder_relayer_clien.Prelude.{
  ℕ, zero, suc, ◌+◌, ◌≤◌, ◌≡◌, refl, arith, Option, none, some, List, [], ◌∷◌, Text, Bytes, inl,
  inr,
}
use go_builder_relayer_clien.Prelude.Int.{ℤ}
use go_builder_relayer_clien.Errors.{Error, Result, ok, err, Result-cases}
use go_builder_relayer_clien.Effects.{
  Reply, failed, broken, response, Event, exchange, signer_exchange, slept, checked, warned,
  errored, History, Host, Go, resume, ◌>>=◌,
}
use go_builder_relayer_clien.Http.{
  HttpClient, RequestOptions, Outcome, finish, again, proceed, request_of, target_of,
  sleep_with_context, send_once, pause, retry_later, judge, try_once, give_up, attempts, http_do,
}

-- the requests to the relayer in a history
abbrev pub exchanges : List Event → ℕ
exchanges [] = 0
exchanges (exchange req reply ∷ h) = suc (exchanges h)
exchanges (signer_exchange req reply ∷ h) = exchanges h
exchanges (slept d e ∷ h) = exchanges h
exchanges (checked e ∷ h) = exchanges h
exchanges (warned l ∷ h) = exchanges h
exchanges (errored l ∷ h) = exchanges h

module _ (host : Host) where
  pub exchanges-sleep :
      (d : ℤ) (h : History) → exchanges (sleep_with_context host d h).1 ≡ exchanges h
  unfolding sleep_with_context
  exchanges-sleep d h = ground arith

  pub exchanges-pause :
      (c : HttpClient) (attempt : ℕ) (next : Option ℤ) (h : History)
      → exchanges (pause host c attempt next h).1 ≡ exchanges h
  unfolding pause
  exchanges-pause c zero next h = refl
  exchanges-pause c (suc attempt) none h = exchanges-sleep _ h
  exchanges-pause c (suc attempt) (some d) h = exchanges-sleep d h

  module _ {A : Type 0} (decode : Bytes → Result A) (zero_value : A) where
    pub exchanges-judge :
        (c : HttpClient) (method url : Text) (attempt : ℕ) (reply : Reply) (h : History)
        → exchanges (judge host decode zero_value c method url attempt reply h).1 ≡ exchanges h
    unfolding judge retry_later
    exchanges-judge c method url attempt (failed e) h = ground arith
    exchanges-judge c method url attempt (broken s b e) h = ground arith
    exchanges-judge c method url attempt (response s hd b) h = ground arith

    exchanges-try_once :
        (c : HttpClient) (method url target : Text) (opts : RequestOptions) (attempt : ℕ)
        (h : History)
        → exchanges (try_once host decode zero_value c method url target opts attempt h).1
          ≤ exchanges h + 1
    unfolding try_once send_once
    exchanges-try_once c method url target opts attempt h = ground (
      arith,
      exchanges-judge c method url attempt (host.round_trip h (request_of host method target opts))
          (exchange (request_of host method target opts)
              (host.round_trip h (request_of host method target opts))
            ∷ h),
    )

-- `m` sends `n` requests at most.
abbrev pub Costs : {A : Type 0} → ℕ → Go A → Type 0
Costs n m = (h : History) → exchanges (m h).1 ≤ exchanges h + n

Costs-resume :
    {A B : Type 0} (n : ℕ) (r : Result A) (f : A → Go B) (h : History)
    → ((a : A) → Costs n (f a))
    → exchanges (resume r f h).1 ≤ exchanges h + n
Costs-resume n (ok a) f h k = k a h
Costs-resume n (err e) f h k = omega arith

pub Costs-bind :
    {A B : Type 0} (n k : ℕ) (m : Go A) (f : A → Go B)
    → Costs n m
    → ((a : A) → Costs k (f a))
    → Costs (n + k) (m >>= f)
Costs-bind n k m f hm hf h = omega (arith, hm h, Costs-resume k (m h).0 f (m h).1 hf)

Costs-proceed :
    {A : Type 0} (n : ℕ) (outcome : Outcome A) (k : Option ℤ → Error → Go A)
    → ((next : Option ℤ) (e : Error) → Costs n (k next e))
    → Costs n (proceed outcome k)
unfolding proceed
Costs-proceed n (finish r) k c h = omega arith
Costs-proceed n (again next e) k c h = c next e h

module _ (host : Host) {A : Type 0} (decode : Bytes → Result A) (zero_value : A) where
  Costs-give_up : (last : Option Error) → Costs 0 (give_up host decode zero_value last)
  unfolding give_up
  Costs-give_up none h = omega arith
  Costs-give_up (some e) h = omega arith

  Costs-attempts :
      (rounds : ℕ) (c : HttpClient) (method url target : Text) (opts : RequestOptions) (attempt : ℕ)
      (next : Option ℤ) (last : Option Error) (h : History)
      → exchanges
          (attempts host decode zero_value rounds c method url target opts attempt next last h).1
        ≤ exchanges h + rounds
  unfolding attempts
  Costs-attempts zero c method url target opts attempt next last h = Costs-give_up last h
  Costs-attempts (suc rounds) c method url target opts attempt next last h =
      let bound =
        Costs-bind 0 (1 + rounds) (pause host c attempt next)
          (λ _. try_once host decode zero_value c method url target opts attempt >>= λ outcome.
            proceed outcome (λ next' e.
              attempts host decode zero_value rounds c method url target opts (attempt + 1) next'
                (some e)))
          (λ h. omega (arith, exchanges-pause host c attempt next h))
          (λ _.
            Costs-bind 1 rounds (try_once host decode zero_value c method url target opts attempt) _
              (exchanges-try_once host decode zero_value c method url target opts attempt)
              (λ outcome. Costs-proceed rounds outcome _ (λ next' e.
                Costs-attempts rounds c method url target opts (attempt + 1) next' (some e))))
          h in
      omega (arith, bound)

  -- A call sends one request and as many more as there are retries, at most.
  pub http_do-bound :
      (c : HttpClient) (method url : Text) (opts : RequestOptions) (h : History)
      → exchanges (http_do host decode zero_value (some c) method url opts h).1
        ≤ exchanges h + (c.max_retries + 1)
  unfolding http_do
  http_do-bound c method url opts h = elim (Result-cases (host.parse_url url)) [
    | inl (e, bad) ↦ rw (bad, http_do) (omega arith)
    | inr (u, good) ↦
        rw (good, http_do)
          (omega (
            arith,
            Costs-attempts (suc c.max_retries) c method url (target_of host u opts.params) opts 0
                none none h,
          ))
  ]
