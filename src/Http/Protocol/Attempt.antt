-- ===== src/Http/Protocol/Attempt.antt =====
-- One attempt of a call: its pause, and what is made of its reply.
use go_builder_relayer_clien.Prelude.{
  ℕ, zero, suc, ◌<◌, ◌≡◌, refl, ap, ◌∙◌, arith, false, Option, none, some, ◌∷◌, Text, Bytes, codes,
  ltb, Bool-cases, Option-cases, inl, inr, ◌⊎◌,
}
use go_builder_relayer_clien.Prelude.Int.{ℤ, pos, leb_ℤ}
use go_builder_relayer_clien.Golang.Header.{Header}
use go_builder_relayer_clien.Errors.{Error, wrap, Result, ok, err, Result-cases}
use go_builder_relayer_clien.Effects.{Reply, failed, broken, response, exchange, History, Host, Go}
use go_builder_relayer_clien.Http.{
  HttpClient, RequestOptions, Outcome, finish, again, is_retryable, sleep_with_context,
  exponential_backoff, pause, retry_later, http_error, judge, try_once, give_up, attempts,
}
use go_builder_relayer_clien.Http.Outcomes.{
  IsRetried, req_of, settled, judge-again, judge-decisive, try_once-built, try_once-refused,
}
use go_builder_relayer_clien.Http.Protocol.{waited, got, acts, delay, after_pause, asked_delay}

module _ (host : Host) where
  -- how a sleep of `d` comes to its end
  abbrev Slept : ℤ → History → Result (Unit {0}) × History → Type 0
  Slept d h r =
      ((e : Error) × (leb_ℤ d (pos 0) ≡ false)
        × (r.0 ≡ err e)
        × (acts r.1 ≡ waited d (some e) ∷ acts h))
      ⊎ ((r.0 ≡ ok tt) × (acts r.1 ≡ after_pause d (acts h)))

  sleep-acts : (d : ℤ) (h : History) → Slept d h (sleep_with_context host d h)
  unfolding sleep_with_context
  sleep-acts d h = elim (Bool-cases (leb_ℤ d (pos 0))) [
    | inl short ↦ inr (rw short refl, rw short refl)
    | inr long ↦ elim (Option-cases (host.timer h d)) [
      | inl fired ↦ inr (rw (long, fired) refl, rw (long, fired) refl)
      | inr (e, cut) ↦ inl (e, long, rw (long, cut) refl, rw (long, cut) refl)
    ]
  ]

  -- The pause is what the policy says, and only a positive one can be interrupted.
  pub pause-acts :
      (c : HttpClient) (k : ℕ) (next : Option ℤ) (h : History)
      → Slept (delay c k next) h (pause host c k next h)
  unfolding pause
  pause-acts c zero next h = inr (refl, refl)
  pause-acts c (suc k) none h = sleep-acts (exponential_backoff c.base_delay k) h
  pause-acts c (suc k) (some d) h = sleep-acts d h

  module _ {A : Type 0} (decode : Bytes → Result A) (zero_value : A) where
    judge-acts :
        (c : HttpClient) (method url : Text) (attempt : ℕ) (reply : Reply) (h : History)
        → acts (judge host decode zero_value c method url attempt reply h).1 ≡ acts h
    unfolding judge retry_later
    judge-acts c method url attempt (failed e) h = ground arith
    judge-acts c method url attempt (broken s b e) h = ground arith
    judge-acts c method url attempt (response s hd b) h = ground arith

    pub give_up-acts :
        (last : Option Error) (h : History)
        → acts (give_up host decode zero_value last h).1 ≡ acts h
    unfolding give_up
    give_up-acts none h = refl
    give_up-acts (some e) h = refl

    -- A reply that is retried before the last attempt hands on the pause that it asks for.
    judge-again_before :
        (c : HttpClient) (method url : Text) (attempt : ℕ) (reply : Reply) (h : History)
        → IsRetried reply
        → attempt < c.max_retries
        → (e : Error) × ((judge host decode zero_value c method url attempt reply h).0
            ≡ ok (again (asked_delay host.parse_time (host.now h) reply) e))
    unfolding judge retry_later
    judge-again_before c method url attempt (failed e) h r l =
        (wrap (codes "request failed: ") e, ground arith)
    judge-again_before c method url attempt (broken s b e) h r l =
        (wrap (codes "read response: ") e, ground arith)
    judge-again_before c method url attempt (response s hd b) h r l = (http_error s b, ground arith)

    module _ (c : HttpClient) (method url target : Text) (opts : RequestOptions) where
      abbrev pub run : ℕ → ℕ → Option ℤ → Option Error → Go A
      run rounds k next last =
          attempts host decode zero_value rounds c method url target opts k next last

      abbrev pub once : ℕ → Go (Outcome A)
      once k = try_once host decode zero_value c method url target opts k

      -- the acts behind one attempt, and how the call goes on
      pub data Judged (k : ℕ) (h : History) : Type 0 where
        ended :
            (r : Result A) (e : Error)
            → host.new_request method target ≡ err e
            → ((once k h).0 ≡ ok (finish r))
            → acts (once k h).1 ≡ acts h
            → Judged k h
        answered :
            (r : Result A) (s : ℕ) (hd : Header) (b : Bytes)
            → is_retryable s ≡ false
            → ((once k h).0 ≡ ok (finish r))
            → acts (once k h).1 ≡ got (response s hd b) ∷ acts h
            → Judged k h
        again_last :
            (reply : Reply) (next : Option ℤ) (e : Error)
            → IsRetried reply
            → ltb k c.max_retries ≡ false
            → ((once k h).0 ≡ ok (again next e))
            → acts (once k h).1 ≡ got reply ∷ acts h
            → Judged k h
        again_before :
            (reply : Reply) (now : ℤ) (e : Error)
            → IsRetried reply
            → k < c.max_retries
            → ((once k h).0 ≡ ok (again (asked_delay host.parse_time now reply) e))
            → acts (once k h).1 ≡ got reply ∷ acts h
            → Judged k h

      -- the attempt, once the reply is there
      abbrev judging : ℕ → Reply → Go (Outcome A)
      judging k reply = judge host decode zero_value c method url k reply

      abbrev sent : Reply → History → History
      sent reply h = exchange (req_of host decode zero_value method target opts) reply ∷ h

      Judged-retry :
          (k : ℕ) (h : History) (reply : Reply)
          → once k h ≡ judging k reply (sent reply h)
          → IsRetried reply
          → Judged k h
      Judged-retry k h reply same r =
          let shown =
            ap (λ (x : Result (Outcome A) × History). acts x.1) same
            ∙ judge-acts c method url k reply (sent reply h) in
          let result = ap (λ (x : Result (Outcome A) × History). x.0) same in
          elim (Bool-cases (ltb k c.max_retries)) [
            | inl more ↦
                let (e, q) =
                  judge-again_before c method url k reply (sent reply h) r (ground arith) in
                again_before reply (host.now (sent reply h)) e r (ground arith) (result ∙ q) shown
            | inr last ↦
                let (next, e, q) =
                  judge-again host decode zero_value c method url k reply (sent reply h) r in
                again_last reply next e r last (result ∙ q) shown
          ]

      Judged-reply :
          (k : ℕ) (h : History) (reply : Reply)
          → once k h ≡ judging k reply (sent reply h)
          → Judged k h
      Judged-reply k h (failed e) same = Judged-retry k h (failed e) same tt
      Judged-reply k h (broken s b e) same = Judged-retry k h (broken s b e) same tt
      Judged-reply k h (response s hd b) same = elim (Bool-cases (is_retryable s)) [
        | inl r ↦ Judged-retry k h (response s hd b) same r
        | inr d ↦
            let whole =
              same
              ∙ judge-decisive host decode zero_value c method url k s hd b
                  (sent (response s hd b) h) d in
            answered (settled host decode zero_value s b) s hd b d
              (ap (λ (x : Result (Outcome A) × History). x.0) whole)
              (ap (λ (x : Result (Outcome A) × History). acts x.1) whole)
      ]

      pub judged : (k : ℕ) (h : History) → Judged k h
      judged k h = elim (Result-cases (host.new_request method target)) [
        | inl (e, bad) ↦
            let whole = try_once-refused host decode zero_value c method url target opts k h bad in
            ended (err (wrap (codes "build request: ") e)) e bad
              (ap (λ (x : Result (Outcome A) × History). x.0) whole)
              (ap (λ (x : Result (Outcome A) × History). acts x.1) whole)
        | inr (u, built) ↦
            Judged-reply k h (host.round_trip h (req_of host decode zero_value method target opts))
              (try_once-built host decode zero_value c method url target opts k h built)
      ]
