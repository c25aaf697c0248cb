-- ===== src/BuilderAuth/Events.antt =====
-- What signing leaves in the history: nothing, or the exchange with the remote signer.
use go_builder_relayer_clien.Prelude.{arith, ◌&&◌, Option, none, some, Text, inl, inr}
use go_builder_relayer_clien.Prelude.Int.{ℤ}
use go_builder_relayer_clien.Errors.{Error, err, Result-cases}
use go_builder_relayer_clien.Effects.{HttpRequest, Reply, Event, signer_exchange, Host, Go, fail}
use go_builder_relayer_clien.Effects.Preserves.{Preserves, Preserves-lift, Preserves-if}
use go_builder_relayer_clien.BuilderAuth.{
  BuilderCredentials, BuilderRemoteConfig, BuilderConfig, build_builder_headers_local,
  build_builder_headers_remote, recover, one_signer, both_failed, is_some, headers,
}

module _ (host : Host) (P : Event → Type 0)
    (any : (req : HttpRequest) (reply : Reply) → P (signer_exchange req reply)) where
  recover-Preserves :
      {A : Type 0} (m : Go A) (otherwise : Error → Go A)
      → Preserves P m
      → ((e : Error) → Preserves P (otherwise e))
      → Preserves P (recover host m otherwise)
  recover-Preserves m otherwise p q = record {
    at = λ h r. elim (Result-cases (m h).0) [
      | inl (e, bad) ↦ rw (bad, recover) ((q e).at (m h).1 (p.at h r))
      | inr (a, good) ↦ rw (good, recover) (p.at h r)
    ];
  }

  module _ (method path : Text) (body : Option Text) (t : ℤ) where
    local-Preserves :
        (l : Option BuilderCredentials)
        → Preserves P (build_builder_headers_local host l method path body t)
    unfolding build_builder_headers_local
    local-Preserves none = record { at = λ h p. p }
    local-Preserves (some l) = record { at = λ h p. ground arith }

    remote-Preserves :
        (r : Option BuilderRemoteConfig)
        → Preserves P (build_builder_headers_remote host r method path body t)
    unfolding build_builder_headers_remote
    remote-Preserves none = record { at = λ h p. p }
    remote-Preserves (some r) = record { at = λ h p. grind (arith, any) }

    one-Preserves :
        (l : Option BuilderCredentials) (r : Option BuilderRemoteConfig)
        → Preserves P (one_signer host l r method path body t)
    unfolding one_signer
    one-Preserves (some l) r = local-Preserves (some l)
    one-Preserves none (some r) = remote-Preserves (some r)
    one-Preserves none none = record { at = λ h p. p }

    pub headers-Preserves :
        (c : Option BuilderConfig) → Preserves P (headers host c method path body t)
    unfolding headers
    headers-Preserves none = record { at = λ h p. p }
    headers-Preserves (some c) =
        Preserves-if (c.remote_fallback_local && (is_some host c.remote && is_some host c.local))
          (recover host (build_builder_headers_remote host c.remote method path body t)
            (λ remote_err.
              recover host (build_builder_headers_local host c.local method path body t)
                (λ local_err. fail (both_failed host remote_err local_err))))
          (one_signer host c.local c.remote method path body t)
          (recover-Preserves (build_builder_headers_remote host c.remote method path body t) _
            (remote-Preserves c.remote)
            (λ remote_err.
              recover-Preserves (build_builder_headers_local host c.local method path body t) _
                (local-Preserves c.local)
                (λ local_err. Preserves-lift (err (both_failed host remote_err local_err)))))
          (one-Preserves c.local c.remote)
