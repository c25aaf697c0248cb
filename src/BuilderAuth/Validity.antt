-- ===== src/BuilderAuth/Validity.antt =====
-- What a configuration that is not valid comes to.
use go_builder_relayer_clien.Prelude.{
  ◌≡◌, refl, ap, ◌∙◌, arith, Bool, true, false, ◌||◌, Option, none, some, Text,
}
use go_builder_relayer_clien.Prelude.Int.{ℤ}
use go_builder_relayer_clien.Golang.Header.{Header}
use go_builder_relayer_clien.Errors.{Error, sdk, Result, ok, err}
use go_builder_relayer_clien.Errors.Predefined.{err_missing_builder_config}
use go_builder_relayer_clien.Effects.{History, Host, Go, fail}
use go_builder_relayer_clien.BuilderAuth.{
  BuilderCredentials, BuilderRemoteConfig, BuilderConfig, is_valid, local_valid, remote_valid,
  either_valid, build_builder_headers_local, build_builder_headers_remote, headers, one_signer,
  both_failed, recover,
}

module _ (host : Host) (method path : Text) (body : Option Text) (timestamp : ℤ) (h : History) where
  local_refuses :
      (l : Option BuilderCredentials)
      → local_valid l ≡ false
      → build_builder_headers_local host l method path body timestamp h
        ≡ (err (sdk err_missing_builder_config), h)
  unfolding build_builder_headers_local
  local_refuses none p = refl
  local_refuses (some l) p = rw p refl

  remote_refuses :
      (r : Option BuilderRemoteConfig)
      → remote_valid r ≡ false
      → build_builder_headers_remote host r method path body timestamp h
        ≡ (err (sdk err_missing_builder_config), h)
  unfolding build_builder_headers_remote
  remote_refuses none p = refl
  remote_refuses (some r) p = ground arith

  abbrev Refused : Result Header × History → Type 0
  Refused x = (e : Error) × (x ≡ (err e, h))

  one_refuses :
      (l : Option BuilderCredentials) (r : Option BuilderRemoteConfig)
      → either_valid l r ≡ false
      → Refused (one_signer host l r method path body timestamp h)
  unfolding one_signer
  one_refuses (some l) r p = (_, local_refuses (some l) p)
  one_refuses none (some r) p = (_, remote_refuses (some r) p)
  one_refuses none none p = (_, refl)

  either_of_fallback :
      (l : Option BuilderCredentials) (r : Option BuilderRemoteConfig)
      → (remote_valid r || local_valid l) ≡ false
      → either_valid l r ≡ false
  either_of_fallback (some l) none p = p
  either_of_fallback (some l) (some r) p = ground arith
  either_of_fallback none none p = refl
  either_of_fallback none (some r) p = ground arith

  recover-err :
      {A : Type 0} (m : Go A) (otherwise : Error → Go A) {e : Error} {h' : History}
      → m h ≡ (err e, h')
      → recover host m otherwise h ≡ otherwise e h'
  recover-err {A} m otherwise p =
      ap (λ (x : Result A × History). elim x.0 [ ok a ↦ (ok a, x.1) | err e ↦ otherwise e x.1 ]) p

  both_refuse :
      (l : BuilderCredentials) (r : BuilderRemoteConfig)
      → (remote_valid (some r) || local_valid (some l)) ≡ false
      → Refused (
          headers host
            (some (record { local = some l; remote = some r; remote_fallback_local = true }))
            method
            path
            body
            timestamp
            h)
  unfolding headers
  both_refuse l r p =
      let no_remote : remote_valid (some r) ≡ false = ground arith in
      let no_local : local_valid (some l) ≡ false = ground arith in
      let missing = sdk err_missing_builder_config in
      let local = build_builder_headers_local host (some l) method path body timestamp in
      let after = λ (remote_err : Error).
        recover host local (λ local_err. fail (both_failed host remote_err local_err)) in
      (
        both_failed host missing missing,
        recover-err (build_builder_headers_remote host (some r) method path body timestamp) after
              (remote_refuses (some r) no_remote)
            ∙ recover-err local (λ local_err. fail (both_failed host missing local_err))
                (local_refuses (some l) no_local),
      )

  refuses :
      (fallback : Bool) (l : Option BuilderCredentials) (r : Option BuilderRemoteConfig)
      → is_valid (some (record { local = l; remote = r; remote_fallback_local = fallback })) ≡ false
      → Refused (
          headers host
            (some (record { local = l; remote = r; remote_fallback_local = fallback }))
            method
            path
            body
            timestamp
            h)
  unfolding is_valid headers
  refuses false l r p = one_refuses l r p
  refuses true (some l) (some r) p = both_refuse l r p
  refuses true (some l) none p = one_refuses (some l) none (either_of_fallback (some l) none p)
  refuses true none (some r) p = one_refuses none (some r) (either_of_fallback none (some r) p)
  refuses true none none p = one_refuses none none refl

  -- A configuration that is not valid yields an error and no headers, and nothing is asked of the
  -- remote signer: the history stays as it was.
  pub headers-refuses :
      (c : Option BuilderConfig)
      → is_valid c ≡ false
      → (e : Error) × (headers host c method path body timestamp h ≡ (err e, h))
  unfolding is_valid headers
  headers-refuses none p = (_, refl)
  headers-refuses (some c) p = refuses c.remote_fallback_local c.local c.remote p
