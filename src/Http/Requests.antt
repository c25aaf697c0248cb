-- ===== src/Http/Requests.antt =====
-- Which requests a call sends.
use go_builder_relayer_clien.Prelude.{
  ℕ, zero, suc, ◌+◌, arith, Option, none, some, Text, Bytes, inl, inr,
}
use go_builder_relayer_clien.Prelude.Int.{ℤ}
use go_builder_relayer_clien.Errors.{Error, Result, ok, Result-cases}
use go_builder_relayer_clien.Effects.{
  HttpRequest, Reply, failed, broken, response, Event, exchange, signer_exchange, slept, checked,
  warned, errored, Host, Go, ◌>>=◌,
}
use go_builder_relayer_clien.Effects.Preserves.{Preserves, Preserves-lift, Preserves-bind}
use go_builder_relayer_clien.Http.{
  HttpClient, RequestOptions, Outcome, finish, again, proceed, request_of, target_of,
  sleep_with_context, send_once, pause, retry_later, judge, try_once, give_up, attempts, http_do,
}

-- A request to the relayer has `Q`; any other event does not matter.
abbrev pub OfRequest : (HttpRequest → Type 0) → Event → Type 0
OfRequest Q (exchange req reply) = Q req
OfRequest Q (signer_exchange req reply) = Unit
OfRequest Q (slept d e) = Unit
OfRequest Q (checked e) = Unit
OfRequest Q (warned l) = Unit
OfRequest Q (errored l) = Unit

module _ (host : Host) (Q : HttpRequest → Type 0) where
  pub sleep-Preserves : (d : ℤ) → Preserves (OfRequest Q) (sleep_with_context host d)
  unfolding sleep_with_context
  sleep-Preserves d = record { at = λ h p. ground arith }

  pause-Preserves :
      (c : HttpClient) (attempt : ℕ) (next : Option ℤ)
      → Preserves (OfRequest Q) (pause host c attempt next)
  unfolding pause
  pause-Preserves c zero next = Preserves-lift (ok tt)
  pause-Preserves c (suc attempt) none = sleep-Preserves _
  pause-Preserves c (suc attempt) (some d) = sleep-Preserves d

  send_once-Preserves : (req : HttpRequest) → Q req → Preserves (OfRequest Q) (send_once host req)
  unfolding send_once
  send_once-Preserves req q = record { at = λ h p. (q, p) }

  module _ {A : Type 0} (decode : Bytes → Result A) (zero_value : A) where
    judge-Preserves :
        (c : HttpClient) (method url : Text) (attempt : ℕ) (reply : Reply)
        → Preserves (OfRequest Q) (judge host decode zero_value c method url attempt reply)
    unfolding judge retry_later
    judge-Preserves c method url attempt (failed e) = record { at = λ h p. ground arith }
    judge-Preserves c method url attempt (broken s b e) = record { at = λ h p. ground arith }
    judge-Preserves c method url attempt (response s hd b) = record { at = λ h p. ground arith }

    give_up-Preserves :
        (last : Option Error) → Preserves (OfRequest Q) (give_up host decode zero_value last)
    unfolding give_up
    give_up-Preserves none = record { at = λ h p. p }
    give_up-Preserves (some e) = record { at = λ h p. (tt, p) }

    proceed-Preserves :
        (o : Outcome A) (k : Option ℤ → Error → Go A)
        → ((next : Option ℤ) (e : Error) → Preserves (OfRequest Q) (k next e))
        → Preserves (OfRequest Q) (proceed o k)
    unfolding proceed
    proceed-Preserves (finish r) k p = Preserves-lift r
    proceed-Preserves (again next e) k p = p next e

    module _ (c : HttpClient) (method url : Text) (opts : RequestOptions) where
      module _ (target : Text) (q : Q (request_of host method target opts)) where
        try_once-Preserves :
            (attempt : ℕ)
            → Preserves
                (OfRequest Q)
                (try_once host decode zero_value c method url target opts attempt)
        unfolding try_once
        try_once-Preserves attempt = record {
          at = λ h p. elim (Result-cases (host.new_request method target)) [
            | inl (e, bad) ↦ rw (bad, try_once) p
            | inr (u, built) ↦
                let req = request_of host method target opts in
                let sending =
                  Preserves-bind (send_once host req)
                    (judge host decode zero_value c method url attempt) (send_once-Preserves req q)
                    (judge-Preserves c method url attempt) in
                rw (built, try_once) (sending.at h p)
          ];
        }

        attempts-Preserves :
            (rounds attempt : ℕ) (next : Option ℤ) (last : Option Error)
            → Preserves
                (OfRequest Q)
                (attempts host decode zero_value rounds c method url target opts attempt next last)
        unfolding attempts
        attempts-Preserves zero attempt next last = give_up-Preserves last
        attempts-Preserves (suc rounds) attempt next last =
            let k = λ (next' : Option ℤ) (e : Error).
              attempts host decode zero_value rounds c method url target opts (attempt + 1) next'
                (some e) in
            let once = try_once host decode zero_value c method url target opts attempt in
            Preserves-bind (pause host c attempt next) (λ (_ : Unit {0}). once >>= λ o. proceed o k)
              (pause-Preserves c attempt next)
              (λ _.
                Preserves-bind once (λ o. proceed o k) (try_once-Preserves attempt)
                  (λ o.
                    proceed-Preserves o k
                      (λ next' e. attempts-Preserves rounds (attempt + 1) next' (some e))))

      -- the requests of a call are all of one form
      pub http_do-Preserves :
          ((target : Text) → Q (request_of host method target opts))
          → Preserves (OfRequest Q) (http_do host decode zero_value (some c) method url opts)
      unfolding http_do
      http_do-Preserves q = record {
        at = λ h p. elim (Result-cases (host.parse_url url)) [
          | inl (e, bad) ↦ rw (bad, http_do) p
          | inr (u, good) ↦
              let target = target_of host u opts.params in
              let run = attempts-Preserves target (q target) (suc c.max_retries) 0 none none in
              rw (good, http_do) (run.at h p)
        ];
      }
