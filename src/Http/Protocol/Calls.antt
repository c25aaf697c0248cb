-- ===== src/Http/Protocol/Calls.antt =====
-- HTTPClient.Do and the retry protocol.
use go_builder_relayer_clien.Prelude.{
  ℕ, zero, suc, ◌+◌, ◌<◌, ◌≡◌, refl, ap, sym, subst, ◌∙◌, arith, Option, none, some, List, ◌∷◌,
  Text, Bytes, codes, ◌⊎◌, inl, inr,
}
use go_builder_relayer_clien.Prelude.Int.{ℤ}
use go_builder_relayer_clien.Errors.{err, wrap, Error, Result, ok, Result-cases}
use go_builder_relayer_clien.Effects.{Url, response, History, Host, Go, ◌>>=◌}
use go_builder_relayer_clien.Http.{
  HttpClient, RequestOptions, Outcome, finish, again, proceed, target_of, pause, attempts, http_do,
}
use go_builder_relayer_clien.Http.Protocol.{
  Act, got, acts, delay, after_pause, asked_delay, Follows, interrupted, unbuilt, decided,
  exhausted, retried,
}
use go_builder_relayer_clien.Http.Protocol.Attempt.{
  run, once, pause-acts, give_up-acts, Judged, ended, answered, again_last, again_before, judged,
}

module _ (host : Host) {A : Type 0} (decode : Bytes → Result A) (zero_value : A) where
  module _ (c : HttpClient) (method url target : Text) (opts : RequestOptions) where
    abbrev attempt : ℕ → Go (Outcome A)
    attempt = once host decode zero_value c method url target opts

    abbrev rounds_of : ℕ → ℕ → Option ℤ → Option Error → Go A
    rounds_of = run host decode zero_value c method url target opts

    -- a round behind its pause
    paused :
        (rounds k : ℕ) (next : Option ℤ) (last : Option Error) (h : History)
        → (pause host c k next h).0 ≡ ok tt
        → rounds_of (suc rounds) k next last h
          ≡ (attempt k >>= λ o. proceed o (λ next' e. rounds_of rounds (k + 1) next' (some e)))
              (pause host c k next h).1
    unfolding attempts
    paused rounds k next last h p = rw p refl

    -- what stands behind an attempt
    abbrev going : ℕ → ℕ → Outcome A → Go A
    going rounds k o = proceed o (λ next' e. rounds_of rounds (k + 1) next' (some e))

    finished :
        (rounds k : ℕ) (h : History) (r : Result A)
        → (attempt k h).0 ≡ ok (finish r)
        → ((attempt k >>= going rounds k) h).1 ≡ (attempt k h).1
    unfolding proceed
    finished rounds k h r q = rw q refl

    gone_on :
        (rounds k : ℕ) (h : History) (next : Option ℤ) (e : Error)
        → (attempt k h).0 ≡ ok (again next e)
        → (attempt k >>= going rounds k) h ≡ rounds_of rounds (k + 1) next (some e) (attempt k h).1
    unfolding proceed
    gone_on rounds k h next e q = rw q refl

    module _ (rounds k : ℕ) (next : Option ℤ) (h0 : History) where
      abbrev before : List Act
      before = acts h0

      -- the next attempts follow the protocol, or there are none
      abbrev Goes : Type 0
      Goes =
          (next' : Option ℤ) (e : Error) (h : History)
          → k < c.max_retries
          → Follows host c method target (suc k) next' (acts h)
              (acts (rounds_of rounds (k + 1) next' (some e) h).1)

      abbrev Stops : Type 0
      Stops =
          (next' : Option ℤ) (e : Error) (h : History)
          → k ≡ c.max_retries
          → acts (rounds_of rounds (k + 1) next' (some e) h).1 ≡ acts h

      round-Follows :
          (h : History)
          → k < c.max_retries + 1
          → acts h ≡ after_pause (delay c k next) before
          → Goes
          → Stops
          → Judged host decode zero_value c method url target opts k h
          → Follows host c method target k next before (acts ((attempt k >>= going rounds k) h).1)
      round-Follows h size shown goes stops (ended r e bad q a) =
          unbuilt e bad (ap acts (finished rounds k h r q) ∙ a ∙ shown)
      round-Follows h size shown goes stops (answered r s hd b d q a) = decided s hd b d (
          ap acts (finished rounds k h r q)
          ∙ a
          ∙ ap (λ (l : List Act). got (response s hd b) ∷ l) shown)
      round-Follows h size shown goes stops (again_last reply next' e r last q a) =
          let end : k ≡ c.max_retries = ground arith in
          exhausted reply r end (
            ap (λ (x : Result A × History). acts x.1) (gone_on rounds k h next' e q)
            ∙ stops next' e (attempt k h).1 end
            ∙ a
            ∙ ap (λ (l : List Act). got reply ∷ l) shown)
      round-Follows h size shown goes stops (again_before reply now e r l q a) =
          let next' = asked_delay host.parse_time now reply in
          let step = goes next' e (attempt k h).1 l in
          let from = a ∙ ap (λ (acc : List Act). got reply ∷ acc) shown in
          let to = ap (λ (x : Result A × History). acts x.1) (sym (gone_on rounds k h next' e q)) in
          retried reply now r l (
            subst
              (λ (acc : List Act).
                Follows host c method target (suc k) next' acc
                  (acts ((attempt k >>= going rounds k) h).1))
              from
              (subst
                (λ (acc : List Act).
                  Follows host c method target (suc k) next' (acts (attempt k h).1) acc)
                to step))

      attempt-Follows :
          (last : Option Error)
          → k < c.max_retries + 1
          → Goes
          → Stops
          → Follows host c method target k next before
              (acts (rounds_of (suc rounds) k next last h0).1)
      unfolding attempts
      attempt-Follows last size goes stops =
          let h = (pause host c k next h0).1 in
          elim (pause-acts host c k next h0) [
            | inl (e, long, bad, shown) ↦ interrupted e long (rw bad shown)
            | inr (good, shown) ↦
                subst
                  (λ (x : Result A × History).
                    Follows host c method target k next before (acts x.1))
                  (sym (paused rounds k next last h0 good))
                  (round-Follows h size shown goes stops
                    (judged host decode zero_value c method url target opts k h))
          ]

    run-Follows :
        (rounds k : ℕ) (next : Option ℤ) (last : Option Error) (h : History)
        → rounds + k ≡ c.max_retries
        → Follows host c method target k next
            (acts h)
            (acts (rounds_of (suc rounds) k next last h).1)
    unfolding attempts
    run-Follows zero k next last h size =
        attempt-Follows zero k next h last (omega arith) (λ next' e h' l. absurd (omega arith))
          (λ next' e h' end. give_up-acts host decode zero_value (some e) h')
    run-Follows (suc rounds) k next last h size =
        attempt-Follows (suc rounds) k next h last (omega arith)
          (λ next' e h' l.
            subst
              (λ (n : ℕ).
                Follows host c method target n next' (acts h')
                  (acts (rounds_of (suc rounds) (k + 1) next' (some e) h').1))
              (omega arith) (run-Follows rounds (k + 1) next' (some e) h' (omega arith)))
          (λ next' e h' end. absurd (omega arith))

module _ (host : Host) where
  -- A call whose URL cannot be parsed returns that error and does nothing at all. Any other keeps to
  -- the retry protocol: it sends nothing behind a request that cannot be built, an interrupted pause, a
  -- reply that is not retried or the last attempt, and between two attempts it waits for what the
  -- reply asked for, or else for the backoff of the attempt.
  pub http_do-Follows :
      {A : Type 0} (decode : Bytes → Result A) (zero_value : A) (c : HttpClient) (method url : Text)
      (opts : RequestOptions) (h : History)
      → ((e : Error) × (host.parse_url url ≡ err e)
          × (http_do host decode zero_value (some c) method url opts h
              ≡ (err (wrap (codes "parse url: ") e), h)))
        ⊎ ((u : Url) × (host.parse_url url ≡ ok u)
            × Follows host c method
                (target_of host u opts.params)
                0
                none
                (acts h)
                (acts (http_do host decode zero_value (some c) method url opts h).1))
  unfolding http_do
  http_do-Follows decode zero_value c method url opts h = elim (Result-cases (host.parse_url url)) [
    | inl (e, bad) ↦ inl (e, bad, rw (bad, http_do) refl)
    | inr (u, good) ↦ inr (
      u,
      good,
      rw (good, http_do)
          (run-Follows host decode zero_value c method url (target_of host u opts.params) opts
            c.max_retries 0 none none h (omega arith)),
    )
  ]
