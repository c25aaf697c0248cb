-- ===== src/Signer/Packable.antt =====
-- The signatures of the signer with a private key, as SplitAndPackSig takes them.
use go_builder_relayer_clien.Prelude.{
  ℕ, ◌+◌, ◌<◌, ◌≡◌, ap, Bool-cases, inl, inr, some, none, Option, Bytes, take, get_elem?, is_empty,
  [], ◌∷◌, ◌++◌, codes,
}
use go_builder_relayer_clien.Errors.{ok, wrap_error-eq-ok}
use go_builder_relayer_clien.Ethereum.{Ethereum}
use go_builder_relayer_clien.Utils.{split_and_pack_sig, last_byte}
use go_builder_relayer_clien.Utils.Signatures.{split_and_pack_sig_complete}
use go_builder_relayer_clien.Signer.{Curve, SignsWithRecoveryBit, PrivateKeySigner, sign_message}

last_byte-get_elem : (sig : Bytes) (v : ℕ) → get_elem? sig 64 ≡ some v → last_byte sig ≡ v
last_byte-get_elem sig v h = ap (λ (o : Option ℕ). elim o [ none ↦ 0 | some v ↦ v ]) h

module _ (eth : Ethereum) (curve : Curve) (signs : SignsWithRecoveryBit curve) where
  -- A message that is signed with a private key has a signature that is packed, and with 31 or 32 as its
  -- last byte. The curve is taken to return 65 bytes with a recovery bit.
  pub sign_message-packs :
      (s : PrivateKeySigner eth curve) (msg sig : Bytes)
      → sign_message eth curve s msg ≡ ok sig
      → (b : ℕ) × (b < 2)
        × (split_and_pack_sig eth sig ≡ ok (eth.hexutil_encode (take 64 sig ++ ((31 + b) ∷ []))))
  unfolding sign_message
  sign_message-packs s msg sig h = elim (Bool-cases (is_empty msg)) [
    | inl bad ↦ cc (rw bad at h)
    | inr good ↦
        let hash = curve.text_hash msg in
        let signed =
          wrap_error-eq-ok (codes "sign message: ") (curve.sign hash s.key) (rw good at h) in
        let (size, b, at_64, small) = signs hash s.key sig signed in
        (
          b,
          small,
          split_and_pack_sig_complete eth sig b size (small, inl (last_byte-get_elem sig b at_64)),
        )
  ]
