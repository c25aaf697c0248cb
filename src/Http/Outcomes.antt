-- ===== src/Http/Outcomes.antt =====
-- How a call of `Do` that returns a value came to its end.
use go_builder_relayer_clien.Prelude.{
  ℕ, zero, suc, ◌+◌, ◌<◌, ◌≡◌, refl, sym, ap, subst, ◌∙◌, arith, Bool, true, false, Option, none,
  some, ◌∷◌, Text, Bytes, codes, ltb, leb, ◌==◌, ◌&&◌, if◌then◌else◌, Bool-cases, inl, inr,
}
use go_builder_relayer_clien.Prelude.Int.{ℤ}
use go_builder_relayer_clien.Golang.Header.{Header, header_get}
use go_builder_relayer_clien.Errors.{Error, wrap, Result, ok, err, Result-cases}
use go_builder_relayer_clien.Effects.{
  HttpRequest, Reply, failed, broken, response, exchange, History, Url, Host, Go, ◌>>=◌, ◌>>◌, pure,
  LogLine, >>=-returns,
}
use go_builder_relayer_clien.Http.{
  HttpClient, RequestOptions, Outcome, finish, again, is_retryable, http_error, request_of,
  target_of, parse_retry_after, send_once, pause, retry_later, retry_delay, warn_if, proceed,
  decoded, judge, try_once, give_up, attempts, http_do,
}

-- a failure of the network, or a status of 500 and more or 429
abbrev pub IsRetried : Reply → Type 0
IsRetried (failed e) = Unit
IsRetried (broken s b e) = Unit
IsRetried (response s hd b) = is_retryable s ≡ true

module _ (host : Host) {A : Type 0} (decode : Bytes → Result A) (zero_value : A) where
  -- The call ended with a response below 400 to the request, which decodes to `a`.
  pub record Succeeded (req : HttpRequest) (a : A) (h' : History) : Type 0 where
    pub status : ℕ
    pub headers : Header
    pub body : Bytes
    pub before : History
    pub last : h' ≡ exchange req (response status headers body) ∷ before
    pub good : status < 400
    pub result : decoded host decode zero_value body ≡ ok a

  again-ne-finish :
      {next : Option ℤ} {e : Error} {r : Result A} → ok (again next e) ≡ ok (finish r) → ⊥
  again-ne-finish p = cc

  settled_ok : {r : Result A} {a : A} → ok (finish r) ≡ ok (finish (ok a)) → r ≡ ok a
  settled_ok p = cc

  -- the result of a response that is not retried
  abbrev pub settled : ℕ → Bytes → Result A
  settled s b = if leb 400 s then err (http_error s b) else decoded host decode zero_value b

  pub judge-decisive :
      (c : HttpClient) (method url : Text) (attempt s : ℕ) (hd : Header) (b : Bytes) (h : History)
      → is_retryable s ≡ false
      → judge host decode zero_value c method url attempt (response s hd b) h
        ≡ (ok (finish (settled s b)), h)
  unfolding judge
  judge-decisive c method url attempt s hd b h p = elim (Bool-cases (leb 400 s)) [
    | inl q ↦ rw (p, q)
    | inr q ↦ rw (p, q)
  ]

  warn-then :
      (b : Bool) (line : LogLine) (o : Outcome A) (h : History)
      → ((warn_if host b line >> pure o) h).0 ≡ ok o
  unfolding warn_if
  warn-then true line o h = refl
  warn-then false line o h = refl

  delay-ok :
      (more : Bool) (s : ℕ) (hd : Header) (h : History)
      → (d : Option ℤ) × (retry_delay host more s hd h ≡ (ok d, h))
  unfolding retry_delay
  delay-ok more s hd h = elim (Bool-cases (more && s == 429)) [
    | inl p ↦
        (parse_retry_after host.parse_time (header_get (codes "Retry-After") hd) (host.now h), rw p)
    | inr p ↦ (none, rw p)
  ]

  -- A reply that is retried gives an error to go on with.
  pub judge-again :
      (c : HttpClient) (method url : Text) (attempt : ℕ) (reply : Reply) (h : History)
      → IsRetried reply
      → (next : Option ℤ) × (e : Error) × ((judge host decode zero_value c method url attempt reply
            h).0
          ≡ ok (again next e))
  unfolding judge retry_later
  judge-again c method url attempt (failed e) h p = (none, _, warn-then _ _ _ h)
  judge-again c method url attempt (broken s b e) h p = (none, _, warn-then _ _ _ h)
  judge-again c method url attempt (response s hd b) h p =
      let (d, q) = delay-ok (ltb attempt c.max_retries) s hd h in
      (d, http_error s b, rw (p, retry_later, q) (warn-then _ _ _ h))

  judge-finish_response :
      (c : HttpClient) (method url : Text) (attempt : ℕ) (req : HttpRequest) (s : ℕ) (hd : Header)
      (b : Bytes) (h : History) {a : A}
      → is_retryable s ≡ false
      → settled s b ≡ ok a
      → Succeeded req a (exchange req (response s hd b) ∷ h)
  judge-finish_response c method url attempt req s hd b h p q = elim (Bool-cases (leb 400 s)) [
    | inl high ↦ cc (rw high at q)
    | inr low ↦ record {
      status = s;
      headers = hd;
      body = b;
      before = h;
      last = refl;
      good = ground arith;
      result = rw low at q;
    }
  ]

  judge-finish :
      (c : HttpClient) (method url : Text) (attempt : ℕ) (req : HttpRequest) (reply : Reply)
      (h : History) {a : A}
      → (judge host decode zero_value c method url attempt reply (exchange req reply ∷ h)).0
        ≡ ok (finish (ok a))
      → Succeeded req a
          (judge host decode zero_value c method url attempt reply (exchange req reply ∷ h)).1
  judge-finish c method url attempt req (failed e) h p =
      let (next, x, q) =
        judge-again c method url attempt (failed e) (exchange req (failed e) ∷ h) tt in
      absurd (again-ne-finish (sym q ∙ p))
  judge-finish c method url attempt req (broken s b e) h p =
      let (next, x, q) =
        judge-again c method url attempt (broken s b e) (exchange req (broken s b e) ∷ h) tt in
      absurd (again-ne-finish (sym q ∙ p))
  judge-finish c method url attempt req (response s hd b) h p =
      let req_h = exchange req (response s hd b) ∷ h in
      elim (Bool-cases (is_retryable s)) [
        | inl r ↦
            let (next, x, q) = judge-again c method url attempt (response s hd b) req_h r in
            absurd (again-ne-finish (sym q ∙ p))
        | inr d ↦
            let e = judge-decisive c method url attempt s hd b req_h d in
            rw e
              (judge-finish_response c method url attempt req s hd b h d (settled_ok (rw e at p)))
      ]

  give_up-fails :
      (last : Option Error) (h h' : History) {a : A}
      → give_up host decode zero_value last h ≡ (ok a, h')
      → ⊥
  unfolding give_up
  give_up-fails none h h' p = cc (ap (λ (x : Result A × History). x.0) p)
  give_up-fails (some e) h h' p = cc (ap (λ (x : Result A × History). x.0) p)

  -- what one attempt sends, and the reply
  abbrev pub req_of : Text → Text → RequestOptions → HttpRequest
  req_of method target opts = request_of host method target opts

  pub try_once-built :
      (c : HttpClient) (method url target : Text) (opts : RequestOptions) (attempt : ℕ)
      (h : History)
      → host.new_request method target ≡ ok tt
      → try_once host decode zero_value c method url target opts attempt h
        ≡ judge host decode zero_value c method url attempt
            (host.round_trip h (req_of method target opts))
            (exchange (req_of method target opts) (host.round_trip h (req_of method target opts))
              ∷ h)
  unfolding try_once send_once
  try_once-built c method url target opts attempt h built = rw (built, try_once)

  pub try_once-refused :
      (c : HttpClient) (method url target : Text) (opts : RequestOptions) (attempt : ℕ)
      (h : History) {e : Error}
      → host.new_request method target ≡ err e
      → try_once host decode zero_value c method url target opts attempt h
        ≡ (ok (finish (err (wrap (codes "build request: ") e))), h)
  unfolding try_once
  try_once-refused c method url target opts attempt h bad = rw (bad, try_once)

  not_finished : {e : Error} {a : A} → ok (finish (err e)) ≡ ok (finish (ok a)) → ⊥
  not_finished p = cc

  try_once-finish :
      (c : HttpClient) (method url target : Text) (opts : RequestOptions) (attempt : ℕ)
      (h : History) {a : A}
      → (try_once host decode zero_value c method url target opts attempt h).0 ≡ ok (finish (ok a))
      → Succeeded
          (req_of method target opts)
          a
          (try_once host decode zero_value c method url target opts attempt h).1
  try_once-finish c method url target opts attempt h p =
      elim (Result-cases (host.new_request method target)) [
        | inl (e, bad) ↦
            absurd
              (not_finished (rw (try_once-refused c method url target opts attempt h bad) at p))
        | inr (u, built) ↦
            let e = try_once-built c method url target opts attempt h built in
            rw e (
              judge-finish c method url attempt (req_of method target opts)
                (host.round_trip h (req_of method target opts)) h (rw e at p))
      ]

  proceed-Succeeded :
      {req : HttpRequest} (outcome : Outcome A) (k : Option ℤ → Error → Go A) (h h' : History)
      (a : A)
      → proceed outcome k h ≡ (ok a, h')
      → (outcome ≡ finish (ok a) → Succeeded req a h)
      → ((next : Option ℤ) (e : Error) → k next e h ≡ (ok a, h') → Succeeded req a h')
      → Succeeded req a h'
  unfolding proceed
  proceed-Succeeded {req} (finish r) k h h' a p ends goes =
      let same : h ≡ h' = ap (λ (x : Result A × History). x.1) p in
      subst (Succeeded req a) same (ends (ap finish (ap (λ (x : Result A × History). x.0) p)))
  proceed-Succeeded (again next e) k h h' a p ends goes = goes next e p

  attempts-Succeeded :
      (rounds : ℕ) (c : HttpClient) (method url target : Text) (opts : RequestOptions) (attempt : ℕ)
      (next : Option ℤ) (last : Option Error) (h h' : History) (a : A)
      → attempts host decode zero_value rounds c method url target opts attempt next last h
        ≡ (ok a, h')
      → Succeeded (req_of method target opts) a h'
  unfolding attempts proceed
  attempts-Succeeded zero c method url target opts attempt next last h h' a p =
      absurd (give_up-fails last h h' p)
  attempts-Succeeded (suc rounds) c method url target opts attempt next last h h' a p =
      let k = λ (next' : Option ℤ) (e : Error).
        attempts host decode zero_value rounds c method url target opts (attempt + 1) next'
          (some e) in
      let once = try_once host decode zero_value c method url target opts attempt in
      let f = λ (o : Outcome A). proceed o k in
      let h1 = (pause host c attempt next h).1 in
      let (_, _, q) = >>=-returns (pause host c attempt next) (λ (_ : Unit {0}). once >>= f) h p in
      let (outcome, o, r) = >>=-returns once f h1 q in
      proceed-Succeeded outcome k (once h1).1 h' a r
        (λ e. try_once-finish c method url target opts attempt h1 (o ∙ ap ok e))
        (λ next' e.
          attempts-Succeeded rounds c method url target opts (attempt + 1) next' (some e)
            (once h1).1 h' a)

  -- A call that returns a value ended with a response below 400 to the request that the options and
  -- the URL make up: that is the newest event, and the value is what its body decodes to.
  pub http_do-Succeeded :
      (c : HttpClient) (method url : Text) (opts : RequestOptions) (h h' : History) (a : A)
      → http_do host decode zero_value (some c) method url opts h ≡ (ok a, h')
      → (u : Url) × (host.parse_url url ≡ ok u)
        × Succeeded (req_of method (target_of host u opts.params) opts) a h'
  unfolding http_do
  http_do-Succeeded c method url opts h h' a p = elim (Result-cases (host.parse_url url)) [
    | inl (e, bad) ↦ cc (ap (λ (x : Result A × History). x.0) (rw (bad, http_do) at p))
    | inr (u, good) ↦ (
      u,
      good,
      attempts-Succeeded (suc c.max_retries) c method url (target_of host u opts.params) opts 0 none
          none h h' a (rw (good, http_do) at p),
    )
  ]
