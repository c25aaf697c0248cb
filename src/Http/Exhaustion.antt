-- ===== src/Http/Exhaustion.antt =====
-- What a call does while every reply is to be retried.
use go_builder_relayer_clien.Prelude.{
  ℕ, zero, suc, ◌+◌, ◌≡◌, refl, ap, ◌∙◌, arith, Option, none, some, ◌∷◌, Text, Bytes, codes,
}
use go_builder_relayer_clien.Prelude.Int.{ℤ}
use go_builder_relayer_clien.Errors.{Error, wrap, Result, ok, err}
use go_builder_relayer_clien.Effects.{HttpRequest, exchange, History, Url, Host}
use go_builder_relayer_clien.Http.{
  HttpClient, RequestOptions, again, target_of, sleep_with_context, pause, proceed, try_once,
  give_up, attempts, http_do,
}
use go_builder_relayer_clien.Http.Attempts.{exchanges, exchanges-judge, exchanges-pause}
use go_builder_relayer_clien.Http.Outcomes.{IsRetried, req_of, judge-again, try_once-built}

-- Each request for the URL is answered by a failure or a status that is retried, and no pause is
-- interrupted.
pub record IsDown (host : Host) (method target : Text) (opts : RequestOptions) : Type 0 where
  pub built : host.new_request method target ≡ ok tt
  pub retried : (h : History) (req : HttpRequest) → IsRetried (host.round_trip h req)
  pub rested : (h : History) (d : ℤ) → host.timer h d ≡ none

module _ (host : Host) {A : Type 0} (decode : Bytes → Result A) (zero_value : A) where
  module _ {method target : Text} {opts : RequestOptions}
      (down : IsDown host method target opts) where
    sleep-ok : (d : ℤ) (h : History) → (sleep_with_context host d h).0 ≡ ok tt
    unfolding sleep_with_context
    sleep-ok d h = ground (arith, down.rested h d)

    pub pause-ok :
        (c : HttpClient) (attempt : ℕ) (next : Option ℤ) (h : History)
        → (pause host c attempt next h).0 ≡ ok tt
    unfolding pause
    pause-ok c zero next h = refl
    pause-ok c (suc attempt) none h = sleep-ok _ h
    pause-ok c (suc attempt) (some d) h = sleep-ok d h

    pub try_once-again :
        (c : HttpClient) (url : Text) (attempt : ℕ) (h : History)
        → (next : Option ℤ) × (e : Error) × ((try_once host decode zero_value c method url target
              opts attempt h).0
            ≡ ok (again next e))
          × (exchanges (try_once host decode zero_value c method url target opts attempt h).1
              ≡ exchanges h + 1)
    try_once-again c url attempt h =
        let req = req_of host decode zero_value method target opts in
        let reply = host.round_trip h req in
        let h1 = exchange req reply ∷ h in
        let same =
          try_once-built host decode zero_value c method url target opts attempt h down.built in
        let (next, e, q) =
          judge-again host decode zero_value c method url attempt reply h1 (down.retried h req) in
        (
          next,
          e,
          rw same q,
          rw same
              (exchanges-judge host decode zero_value c method url attempt reply h1 ∙ omega arith),
        )

    module _ (c : HttpClient) (url : Text) where
      -- behind the first pause and the first request
      goes_on :
          (rounds attempt : ℕ) (next : Option ℤ) (last : Option Error) (h : History)
          → (next' : Option ℤ) × (e : Error) × (h' : History) × (attempts host decode zero_value
                (suc rounds)
                c
                method
                url
                target
                opts
                attempt
                next
                last
                h
              ≡ attempts host decode zero_value rounds c method url target opts
                  (attempt + 1)
                  next'
                  (some e)
                  h')
            × (exchanges h' ≡ exchanges h + 1)
      unfolding attempts proceed
      goes_on rounds attempt next last h =
          let h1 = (pause host c attempt next h).1 in
          let (next', e, q, n) = try_once-again c url attempt h1 in
          (
            next',
            e,
            (try_once host decode zero_value c method url target opts attempt h1).1,
            rw (pause-ok c attempt next h, q, attempts) refl,
            n ∙ ap (λ (k : ℕ). k + 1) (exchanges-pause host c attempt next h),
          )

      gives_up :
          (rounds attempt : ℕ) (next : Option ℤ) (last : Error) (h : History)
          → (e : Error) × ((attempts host decode zero_value rounds c method url target opts attempt
                next
                (some last)
                h).0
              ≡ err (wrap (codes "max retries exceeded: ") e))
            × (exchanges
                  (attempts host decode zero_value rounds c method url target opts attempt next
                    (some last)
                    h).1
                ≡ exchanges h + rounds)
      unfolding attempts give_up
      gives_up zero attempt next last h = (last, refl, omega arith)
      gives_up (suc rounds) attempt next last h =
          let (next', e, h', same, n) = goes_on rounds attempt next (some last) h in
          let (e', q, m) = gives_up rounds (attempt + 1) next' e h' in
          (e', rw same q, rw same (omega (arith, m, n)))

  -- While each request for the URL fails or is answered by a status that is retried, and no pause is
  -- interrupted, a call sends one request and as many more as there are retries, and returns the
  -- error of exhausted retries.
  pub http_do-exhausted :
      (c : HttpClient) (method url : Text) (opts : RequestOptions) (u : Url) (h : History)
      → host.parse_url url ≡ ok u
      → IsDown host method (target_of host u opts.params) opts
      → (e : Error) × ((http_do host decode zero_value (some c) method url opts h).0
          ≡ err (wrap (codes "max retries exceeded: ") e))
        × (exchanges (http_do host decode zero_value (some c) method url opts h).1
            ≡ exchanges h + (c.max_retries + 1))
  unfolding http_do
  http_do-exhausted c method url opts u h good down =
      let (next, e, h', same, n) = goes_on down c url c.max_retries 0 none none h in
      let (e', q, m) = gives_up down c url c.max_retries 1 next e h' in
      (e', rw (good, http_do) (rw same q), rw (good, http_do) (rw same (omega (arith, m, n))))
