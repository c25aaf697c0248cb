-- ===== src/BuilderAuth/Complete.antt =====
-- The four headers of a configuration.
use go_builder_relayer_clien.Prelude.{
  ℕ, ◌≡◌, ◌≢◌, refl, ap, ◌∙◌, subst, arith, ltb, leb, true, ◌&&◌, ◌||◌, Option, none, some, [], ◌∷◌,
  ◌++◌, Text, codes, Bytes, is_empty, Bool-cases, inl, inr,
}
use go_builder_relayer_clien.Prelude.Int.{ℤ}
use go_builder_relayer_clien.Golang.Base64.{url}
use go_builder_relayer_clien.Golang.Base64
use go_builder_relayer_clien.Golang.Header.{Header}
use go_builder_relayer_clien.Golang.Strconv.{format_int}
use go_builder_relayer_clien.Errors.{Error, Result, ok, err, Result-cases, wrap_error, ok-injective}
use go_builder_relayer_clien.Effects.{
  History, Host, Go, >>=-returns, Reply, failed, broken, response, fail, lift, ask, emit,
  signer_exchange, ◌>>=◌,
}
use go_builder_relayer_clien.Utils.Integers.{format_int-ne-nil}
use go_builder_relayer_clien.BuilderAuth.{
  BuilderCredentials, BuilderRemoteConfig, BuilderConfig, local_valid, local_headers, sign_hmac,
  decode_secret, body_text, build_builder_headers_local, build_builder_headers_remote, read_signed,
  signer_answer, signer_request, sign_payload, one_signer, recover, is_some, headers,
  normalize_builder_timestamp,
}
use go_builder_relayer_clien.BuilderAuth.Attributed.{
  IsComplete, IsAttributed, IsAttributed-IsComplete, attributed, Completes,
  headers_of_signed_complete,
}

encode-ne-nil : (b : Bytes) → b ≢ [] → Base64.encode url true b ≢ []
unfolding Base64.encode
encode-ne-nil [] p = absurd (p refl)
encode-ne-nil (a ∷ []) p = cc
encode-ne-nil (a ∷ b ∷ []) p = cc
encode-ne-nil (a ∷ b ∷ c ∷ rest) p = cc

-- What a computation returns is an attribution.
abbrev pub Yields : Go Header → Type 0
Yields m = (h h' : History) (hd : Header) → m h ≡ (ok hd, h') → IsAttributed hd

module _ (host : Host) where
  -- The MAC is never empty: it has 32 bytes.
  abbrev pub HasMac : Type 0
  HasMac = (k t : Bytes) → host.hmac_sha256 k t ≢ []

  sign_hmac-ne-nil :
      HasMac → (secret text : Text) (sig : Text) → sign_hmac host secret text ≡ ok sig → sig ≢ []
  unfolding sign_hmac
  sign_hmac-ne-nil mac secret text sig p = elim (Result-cases (decode_secret secret)) [
    | inl (e, bad) ↦ cc (rw (bad, sign_hmac) at p)
    | inr (key, good) ↦
        subst (λ (s : Text). s ≢ []) (ok-injective (rw (good, sign_hmac) at p))
          (encode-ne-nil (host.hmac_sha256 key text) (mac key text))
  ]

  module _ (method path : Text) (body : Option Text) where
    local_headers_complete :
        HasMac
        → (l : BuilderCredentials) (t : ℤ) → local_valid (some l) ≡ true
        → Completes (local_headers host l method path body t)
    unfolding local_headers
    local_headers_complete mac l t valid hd p =
        let signed = format_int t ++ (method ++ (path ++ body_text body)) in
        elim (Result-cases (sign_hmac host l.secret signed)) [
          | inl (e, bad) ↦ cc (rw (bad, local_headers) at p)
          | inr (sig, good) ↦
              attributed l.key l.passphrase (format_int t) sig (ground arith) (ground arith)
                (format_int-ne-nil t) (sign_hmac-ne-nil mac l.secret signed sig good)
                (ok-injective (rw (good, local_headers) at p))
        ]

    Yields-bind :
        {A : Type 0} (m : Go A) (f : A → Go Header) → ((a : A) → Yields (f a)) → Yields (m >>= f)
    Yields-bind m f k h h' hd p = let (a, _, q) = >>=-returns m f h p in k a (m h).1 h' hd q

    Yields-lift : (r : Result Header) → Completes r → Yields (lift r)
    Yields-lift r c h h' hd p = c hd (ap (λ (x : Result Header × History). x.0) p)

    Yields-fail : (e : Error) → Yields (fail e)
    Yields-fail e = Yields-lift (err e) (λ hd p. cc)

    Yields-recover :
        (m : Go Header) (otherwise : Error → Go Header)
        → Yields m
        → ((e : Error) → Yields (otherwise e))
        → Yields (recover host m otherwise)
    Yields-recover m otherwise first second h h' hd p = elim (Result-cases (m h).0) [
      | inl (e, bad) ↦ second e (m h).1 h' hd (rw (bad, recover) at p)
      | inr (a, good) ↦ first h (m h).1 hd (
          ap (λ (r : Result Header). (r, (m h).1))
            (good ∙ ap (λ (x : Result Header × History). x.0) (rw (good, recover) at p)))
    ]

    pub local-Yields :
        HasMac
        → (l : Option BuilderCredentials) (t : ℤ)
        → Yields (build_builder_headers_local host l method path body t)
    unfolding build_builder_headers_local
    local-Yields mac none t h h' hd p = Yields-fail _ h h' hd p
    local-Yields mac (some l) t h h' hd p = elim (Bool-cases (local_valid (some l))) [
      | inl good ↦
          local_headers_complete mac l (normalize_builder_timestamp (host.now h) t) good hd
            (ap (λ (x : Result Header × History). x.0) (rw good at p))
      | inr bad ↦ Yields-fail _ h h' hd (rw bad at p)
    ]

    read_signed_complete :
        (s : ℕ) (b : Bytes) (end : Option Error) → Completes (read_signed host s b end)
    unfolding read_signed
    read_signed_complete s b end hd p = elim (Bool-cases (ltb s 200 || leb 300 s)) [
      | inl bad ↦ cc (rw bad at p)
      | inr good ↦ elim (Result-cases (host.decode_signed b end)) [
        | inl (e, garbled) ↦ cc (rw (good, garbled) at p)
        | inr (raw, read) ↦ headers_of_signed_complete raw hd (rw (good, read) at p)
      ]
    ]

    signer_answer_complete : (reply : Reply) → Completes (signer_answer host reply)
    unfolding signer_answer
    signer_answer_complete (failed e) hd p = cc
    signer_answer_complete (broken s b e) hd p = read_signed_complete s b (some e) hd p
    signer_answer_complete (response s hs b) hd p = read_signed_complete s b none hd p

    remote-Yields :
        (r : Option BuilderRemoteConfig) (t : ℤ)
        → Yields (build_builder_headers_remote host r method path body t)
    unfolding build_builder_headers_remote
    remote-Yields none t h h' hd p = Yields-fail _ h h' hd p
    remote-Yields (some r) t h h' hd p = elim (Bool-cases (is_empty r.host)) [
      | inl bad ↦ Yields-fail _ h h' hd (rw bad at p)
      | inr good ↦
          Yields-bind (ask host.now) _
            (λ now.
              Yields-bind
                (lift (
                  wrap_error (codes "marshal builder payload: ")
                    (host.marshal_sign_payload (sign_payload host method path body now t))))
                _
                (λ raw.
                  Yields-bind
                    (lift (
                      wrap_error (codes "builder request: ")
                        (host.new_request (codes "POST") r.host)))
                    _
                    (λ _.
                      Yields-bind (ask (λ h. host.signer_trip h (signer_request host r raw))) _
                        (λ reply.
                          Yields-bind (emit (signer_exchange (signer_request host r raw) reply)) _
                            (λ _.
                              Yields-lift (signer_answer host reply)
                                (signer_answer_complete reply))))))
            h h' hd (rw good at p)
    ]

    one-Yields :
        HasMac
        → (l : Option BuilderCredentials) (r : Option BuilderRemoteConfig) (t : ℤ)
        → Yields (one_signer host l r method path body t)
    unfolding one_signer
    one-Yields mac (some l) r t = local-Yields mac (some l) t
    one-Yields mac none (some r) t = remote-Yields (some r) t
    one-Yields mac none none t = Yields-fail _

    pub headers-IsAttributed :
        HasMac
        → (c : Option BuilderConfig) (timestamp : ℤ) (h h' : History) (hd : Header)
        → headers host c method path body timestamp h ≡ (ok hd, h')
        → IsAttributed hd
    unfolding headers
    headers-IsAttributed mac none t h h' hd p = Yields-fail _ h h' hd p
    headers-IsAttributed mac (some c) t h h' hd p =
        elim (Bool-cases
          (c.remote_fallback_local && (is_some host c.remote && is_some host c.local))) [
            | inl both ↦
                Yields-recover (build_builder_headers_remote host c.remote method path body t) _
                  (remote-Yields c.remote t)
                  (λ remote_err.
                    Yields-recover (build_builder_headers_local host c.local method path body t) _
                      (local-Yields mac c.local t) (λ local_err. Yields-fail _))
                  h h' hd (rw both at p)
            | inr one ↦ one-Yields mac c.local c.remote t h h' hd (rw one at p)
          ]

    -- The headers of a configuration, signed with local credentials, by the remote signer or by the
    -- fallback, have all four attribution headers, none of them empty, whenever they are returned.
    -- The MAC is taken never to be empty.
    pub headers-IsComplete :
        HasMac
        → (c : Option BuilderConfig) (timestamp : ℤ) (h h' : History) (hd : Header)
        → headers host c method path body timestamp h ≡ (ok hd, h')
        → IsComplete hd
    headers-IsComplete mac c t h h' hd p =
        IsAttributed-IsComplete (headers-IsAttributed mac c t h h' hd p)
