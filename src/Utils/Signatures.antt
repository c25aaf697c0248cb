-- ===== src/Utils/Signatures.antt =====
-- How signatures are packed: `SplitAndPackSig`.
use go_builder_relayer_clien.Prelude.{
  ℕ, ◌+◌, ◌-◌, ◌<◌, ◌≡◌, refl, sym, ap, ◌∙◌, ◌⊎◌, inl, inr, some, [], ◌∷◌, ◌++◌, append_assoc,
  arith, Text, Bytes, length, take, drop, length-take_le, length-drop, take-append-take, Bool-cases,
  Option-cases, ◌==◌,
}
use go_builder_relayer_clien.Errors.{ok}
use go_builder_relayer_clien.Ethereum.{Ethereum}
use go_builder_relayer_clien.Utils.{pack_v, pack_sig, last_byte, split_and_pack_sig}
use go_builder_relayer_clien.Utils.Words.{left_pad_32_full}

-- The recovery bit that a `v` byte stands for.
abbrev pub HasRecoveryBit : ℕ → ℕ → Type 0
HasRecoveryBit v b = (b < 2) × ((v ≡ b) ⊎ (v ≡ 27 + b))

pack_v_sound : (v v' : ℕ) → pack_v v ≡ some v' → (b : ℕ) × HasRecoveryBit v b × (v' ≡ 31 + b)
unfolding pack_v
pack_v_sound v v' h = (v' - 31, ground arith, ground arith)

pack_v_complete : (v b : ℕ) → HasRecoveryBit v b → pack_v v ≡ some (31 + b)
unfolding pack_v
pack_v_complete v b h = ground arith

module _ (eth : Ethereum) where
  pack_sig_lem :
      (sig : Bytes) (v v' : ℕ)
      → length sig ≡ 65
      → pack_v v ≡ some v'
      → pack_sig eth (take 32 sig) (take 32 (drop 32 sig)) v
        ≡ ok (eth.hexutil_encode (take 64 sig ++ (v' ∷ [])))
  unfolding pack_sig
  pack_sig_lem sig v v' h k =
      let rest : length (drop 32 sig) ≡ 33 = omega (arith, length-drop 32 sig) in
      rw (k, pack_sig)
        (rw
          (
            left_pad_32_full (take 32 sig) (length-take_le 32 sig (omega arith)),
            left_pad_32_full (take 32 (drop 32 sig))
                (length-take_le 32 (drop 32 sig) (omega arith)),
          )
          (ap (λ (b : Bytes). ok (eth.hexutil_encode b))
            (sym (append_assoc (take 32 sig) (take 32 (drop 32 sig)) (v' ∷ []))
              ∙ ap (λ (b : Bytes). b ++ (v' ∷ [])) (take-append-take 32 32 64 sig refl))))

  -- What is packed: r and s as they stand, and 31 or 32.
  pub split_and_pack_sig_sound :
      (sig : Bytes) (t : Text)
      → split_and_pack_sig eth sig ≡ ok t
      → (b : ℕ) × (length sig ≡ 65)
        × HasRecoveryBit (last_byte sig) b
        × (t ≡ eth.hexutil_encode (take 64 sig ++ ((31 + b) ∷ [])))
  unfolding split_and_pack_sig
  split_and_pack_sig_sound sig t h = elim (Bool-cases (length sig == 65)) [
    | inl size ↦
        let l : length sig ≡ 65 = ground arith in
        elim (Option-cases (pack_v (last_byte sig))) [
          | inl bad ↦ cc (rw (size, pack_sig, bad) at h)
          | inr (v', good) ↦
              let (b, bit, e) = pack_v_sound (last_byte sig) v' good in
              (b, l, bit, rw (← e) (cc (rw size at h, pack_sig_lem sig (last_byte sig) v' l good)))
        ]
    | inr wrong ↦ cc (rw wrong at h)
  ]

  -- Every signature of 65 bytes whose `v` is a recovery bit, plain or plus 27, is packed.
  pub split_and_pack_sig_complete :
      (sig : Bytes) (b : ℕ)
      → length sig ≡ 65
      → HasRecoveryBit (last_byte sig) b
      → split_and_pack_sig eth sig ≡ ok (eth.hexutil_encode (take 64 sig ++ ((31 + b) ∷ [])))
  unfolding split_and_pack_sig
  split_and_pack_sig_complete sig b h k =
      rw h (pack_sig_lem sig (last_byte sig) (31 + b) h (pack_v_complete (last_byte sig) b k))
