-- ===== src/Client/Budget.antt =====
-- How many requests an operation of the client sends to the relayer.
use go_builder_relayer_clien.Prelude.{
  ℕ, zero, suc, ◌+◌, ◌*◌, ◌≤◌, ◌≡◌, arith, Bool, true, false, Option, none, some, List, ◌++◌, Text,
  Bytes, inl, inr, if◌then◌else◌, ◌&&◌,
}
use go_builder_relayer_clien.Prelude.Int.{ℤ, pos}
use go_builder_relayer_clien.Errors.{Error, sdk, Result, Result-cases}
use go_builder_relayer_clien.Errors.Predefined.{err_missing_builder_config}
use go_builder_relayer_clien.Effects.{
  checked, History, Host, Go, ◌>>=◌, ◌>>◌, lift, fail, emit, ask,
}
use go_builder_relayer_clien.Http.{RequestOptions}
use go_builder_relayer_clien.Http.Attempts.{
  exchanges, Costs, Costs-bind, http_do-bound, exchanges-sleep,
}
use go_builder_relayer_clien.Types.{RelayerTransaction}
use go_builder_relayer_clien.BuilderAuth.{
  BuilderCredentials, BuilderRemoteConfig, BuilderConfig, build_builder_headers_local,
  build_builder_headers_remote, recover, one_signer, both_failed, is_some, headers, is_valid,
}
use go_builder_relayer_clien.Client.{
  RelayClient, Verdict, reached, broke_down, pending, send, send_signed, query_of, get_transaction,
  settle, verdict_of, between_polls, poll_loop, poll_until_state, polls_or_default,
  frequency_or_default, error_or_ok,
}

-- `m` sends `n` requests to the relayer at most.
pub record Sends {A : Type 0} (n : ℕ) (m : Go A) : Type 0 where
  pub at : Costs n m

pub Sends-lift : {A : Type 0} (r : Result A) → Sends 0 (lift r)
Sends-lift r = record { at = λ h. omega arith }

pub Sends-ask : {A : Type 0} (f : History → A) → Sends 0 (ask f)
Sends-ask f = record { at = λ h. omega arith }

pub Sends-fail : {A : Type 0} (n : ℕ) (e : Error) → Sends n (fail {A = A} e)
Sends-fail n e = record { at = λ h. omega arith }

pub Sends-bind :
    {A B : Type 0} (n k : ℕ) (m : Go A) (f : A → Go B)
    → Sends n m
    → ((a : A) → Sends k (f a))
    → Sends (n + k) (m >>= f)
Sends-bind n k m f p q = record { at = Costs-bind n k m f p.at (λ a. (q a).at) }

pub Sends-eq : {A : Type 0} (n k : ℕ) (m : Go A) → n ≡ k → Sends n m → Sends k m
Sends-eq n k m e p = record { at = λ h. omega (arith, e, p.at h) }

pub Sends-then :
    {A B : Type 0} (k : ℕ) (m : Go A) (f : A → Go B)
    → Sends 0 m
    → ((a : A) → Sends k (f a))
    → Sends k (m >>= f)
Sends-then k m f p q = Sends-eq (0 + k) k (m >>= f) (omega arith) (Sends-bind 0 k m f p q)

pub Sends-if :
    {A : Type 0} (n : ℕ) (b : Bool) (m k : Go A)
    → Sends n m
    → Sends n k
    → Sends n (if b then m else k)
Sends-if n true m k p q = p
Sends-if n false m k p q = q

module _ (host : Host) where
  Sends-recover :
      {A : Type 0} (m : Go A) (otherwise : Error → Go A)
      → Sends 0 m
      → ((e : Error) → Sends 0 (otherwise e))
      → Sends 0 (recover host m otherwise)
  Sends-recover m otherwise p q = record {
    at = λ h. elim (Result-cases (m h).0) [
      | inl (e, bad) ↦ rw (bad, recover) (omega (arith, p.at h, (q e).at (m h).1))
      | inr (a, good) ↦ rw (good, recover) (p.at h)
    ];
  }

  module _ (method path : Text) (body : Option Text) (t : ℤ) where
    Sends-local :
        (l : Option BuilderCredentials)
        → Sends 0 (build_builder_headers_local host l method path body t)
    unfolding build_builder_headers_local
    Sends-local none = record { at = λ h. omega arith }
    Sends-local (some l) = record { at = λ h. ground arith }

    Sends-remote :
        (r : Option BuilderRemoteConfig)
        → Sends 0 (build_builder_headers_remote host r method path body t)
    unfolding build_builder_headers_remote
    Sends-remote none = record { at = λ h. omega arith }
    Sends-remote (some r) = record { at = λ h. ground arith }

    Sends-one :
        (l : Option BuilderCredentials) (r : Option BuilderRemoteConfig)
        → Sends 0 (one_signer host l r method path body t)
    unfolding one_signer
    Sends-one (some l) r = Sends-local (some l)
    Sends-one none (some r) = Sends-remote (some r)
    Sends-one none none = record { at = λ h. omega arith }

    -- the headers send nothing to the relayer
    Sends-headers : (c : Option BuilderConfig) → Sends 0 (headers host c method path body t)
    unfolding headers
    Sends-headers none = record { at = λ h. omega arith }
    Sends-headers (some c) =
        Sends-if 0 (c.remote_fallback_local && (is_some host c.remote && is_some host c.local))
          (recover host (build_builder_headers_remote host c.remote method path body t)
            (λ remote_err.
              recover host (build_builder_headers_local host c.local method path body t)
                (λ local_err. fail (both_failed host remote_err local_err))))
          (one_signer host c.local c.remote method path body t)
          (Sends-recover (build_builder_headers_remote host c.remote method path body t) _
            (Sends-remote c.remote)
            (λ remote_err.
              Sends-recover (build_builder_headers_local host c.local method path body t) _
                (Sends-local c.local)
                (λ local_err. Sends-fail 0 (both_failed host remote_err local_err))))
          (Sends-one c.local c.remote)

  module _ (c : RelayClient) where
    -- the requests of one call of the HTTP client
    abbrev pub tries : ℕ
    tries = c.http_client.max_retries + 1

    pub Sends-send :
        {A : Type 0} (decode : Bytes → Result A) (zero_value : A) (path method : Text)
        (opts : RequestOptions)
        → Sends tries (send host decode zero_value c path method opts)
    unfolding send send_signed
    Sends-send decode zero_value path method opts =
        Sends-if tries (is_valid c.builder_config)
          (headers host c.builder_config method (path ++ query_of opts.params) (some opts.body)
              (pos 0)
            >>= λ more. send_signed host decode zero_value c path method opts more)
          (fail (sdk err_missing_builder_config))
          (Sends-then tries
            (headers host c.builder_config method (path ++ query_of opts.params) (some opts.body)
              (pos 0))
            _
            (Sends-headers method (path ++ query_of opts.params) (some opts.body) (pos 0)
              c.builder_config)
            (λ more. record {
              at =
                  http_do-bound host decode zero_value c.http_client method (c.relayer_url ++ path)
                    _;
            }))
          (Sends-fail tries (sdk err_missing_builder_config))

    pub Sends-get_transaction : (id : Text) → Sends tries (get_transaction host c id)
    unfolding get_transaction
    Sends-get_transaction id = Sends-send _ _ _ _ _

    Sends-between : (rounds : ℕ) (frequency : ℤ) → Sends 0 (between_polls host rounds frequency)
    unfolding between_polls
    Sends-between zero frequency = record { at = λ h. omega arith }
    Sends-between (suc n) frequency = record {
      at = λ h. omega (arith, exchanges-sleep host frequency h);
    }

    Sends-settle :
        (n : ℕ) (v : Verdict) (go_on : Go RelayerTransaction)
        → Sends n go_on
        → Sends n (settle v go_on)
    unfolding settle
    Sends-settle n (reached txn) go_on p = record { at = λ h. omega arith }
    Sends-settle n (broke_down hash) go_on p = record { at = λ h. omega arith }
    Sends-settle n pending go_on p = p

    Sends-poll_loop :
        (rounds : ℕ) (id : Text) (states : List Text) (fail_state : Text) (frequency : ℤ)
        → Sends (rounds * tries) (poll_loop host rounds c id states fail_state frequency)
    unfolding poll_loop
    Sends-poll_loop zero id states fail_state frequency = record { at = λ h. omega arith }
    Sends-poll_loop (suc rounds) id states fail_state frequency =
        let rest =
          between_polls host rounds frequency
          >> poll_loop host rounds c id states fail_state frequency in
        let round =
          λ (txns : List RelayerTransaction). settle (verdict_of states fail_state txns) rest in
        let query = get_transaction host c id >>= round in
        Sends-eq (tries + rounds * tries) (suc rounds * tries)
          (poll_loop host (suc rounds) c id states fail_state frequency) (grind arith)
          (Sends-then (tries + rounds * tries) (ask host.ctx_done) _ (Sends-ask host.ctx_done)
            (λ cancelled.
              Sends-then (tries + rounds * tries) (emit (checked cancelled)) _
                (record { at = λ h. omega arith })
                (λ _.
                  Sends-then (tries + rounds * tries) (lift (error_or_ok cancelled)) _
                    (Sends-lift (error_or_ok cancelled))
                    (λ _.
                      Sends-bind tries (rounds * tries) (get_transaction host c id) round
                        (Sends-get_transaction id)
                        (λ txns.
                          Sends-settle (rounds * tries) (verdict_of states fail_state txns) rest (
                            Sends-then (rounds * tries) (between_polls host rounds frequency) _
                              (Sends-between rounds frequency)
                              (λ _. Sends-poll_loop rounds id states fail_state frequency)))))))

    -- Polling sends at most as many requests as there are polls (10 where the caller gives
    -- none), each with as many retries as the HTTP client has.
    pub poll_until_state-bound :
        (id : Text) (states : List Text) (fail_state : Text) (max_polls frequency : ℤ) (h : History)
        → exchanges (poll_until_state host c id states fail_state max_polls frequency h).1
          ≤ exchanges h + polls_or_default max_polls 10 * tries
    unfolding poll_until_state
    poll_until_state-bound id states fail_state max_polls frequency =
        (Sends-poll_loop (polls_or_default max_polls 10) id states fail_state
          (frequency_or_default frequency)).at
