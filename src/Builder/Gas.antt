-- ===== src/Builder/Gas.antt =====
-- The gas limit of a proxy request.
use go_builder_relayer_clien.Prelude.{
  ℕ, ◌≡◌, refl, ◌⊎◌, inl, inr, Bool, true, false, ◌&&◌, not, [], ◌∷◌, Text, Bytes, codes, is_empty,
  text_eq, text_eq_iff, Bool-cases,
}
use go_builder_relayer_clien.Golang.Strconv.{format_nat}
use go_builder_relayer_clien.Errors.{Error, ok, err, Result-cases}
use go_builder_relayer_clien.Types.{ProxyTransactionArgs}
use go_builder_relayer_clien.Ethereum.{Ethereum, CallMsg}
use go_builder_relayer_clien.Signer.{Signer}
use go_builder_relayer_clien.Utils.{decode_hex}
use go_builder_relayer_clien.Builder.{default_gas_limit, get_gas_limit, gas_limit_or_default}

module _ (eth : Ethereum) (s : Signer) where
  -- the message of the estimate
  abbrev pub estimate_msg : Text → ProxyTransactionArgs → Bytes → CallMsg
  estimate_msg to args payload = record {
    from = eth.hex_to_address args.from;
    to = eth.hex_to_address to;
    payload = payload;
  }

  -- The caller leaves the limit out.
  abbrev pub IsUnset : ProxyTransactionArgs → Type 0
  IsUnset args = (args.gas_limit ≡ []) ⊎ (args.gas_limit ≡ codes "0")

  -- the gas limit of a request to `to`, by cases
  pub data IsLimit (to : Text) (args : ProxyTransactionArgs) : Text → Type 0 where
    given : ¬ (IsUnset args) → IsLimit to args args.gas_limit
    estimated :
        (payload : Bytes) (g : ℕ)
        → IsUnset args
        → decode_hex eth args.payload ≡ ok payload
        → s.estimate_gas (estimate_msg to args payload) ≡ ok g
        → IsLimit to args (format_nat g)
    unreadable :
        (e : Error)
        → IsUnset args
        → decode_hex eth args.payload ≡ err e
        → IsLimit to args (format_nat default_gas_limit)
    not_estimated :
        (payload : Bytes) (e : Error)
        → IsUnset args
        → decode_hex eth args.payload ≡ ok payload
        → s.estimate_gas (estimate_msg to args payload) ≡ err e
        → IsLimit to args (format_nat default_gas_limit)

  abbrev is_set : Text → Bool
  is_set limit = not (is_empty limit) && not (text_eq limit (codes "0"))

  set-not : (args : ProxyTransactionArgs) → is_set args.gas_limit ≡ true → ¬ (IsUnset args)
  unfolding text_eq
  set-not args p (inl e) = cc (rw e at p)
  set-not args p (inr e) = cc (rw e at p)

  unset_cases : (limit : Text) → is_set limit ≡ false → (limit ≡ []) ⊎ (limit ≡ codes "0")
  unset_cases [] p = inl refl
  unset_cases (c ∷ limit) p = elim (Bool-cases (text_eq (c ∷ limit) (codes "0"))) [
    | inl zero_text ↦ inr ((text_eq_iff (c ∷ limit) (codes "0")).0 zero_text)
    | inr other ↦ cc (rw other at p)
  ]

  -- The gas limit of a proxy request is the caller's where there is one other than 0. Otherwise it is
  -- the estimate for the call, or ten million where the data cannot be read or the estimate fails.
  pub gas_limit_or_default-IsLimit :
      (to : Text) (args : ProxyTransactionArgs)
      → IsLimit to args (gas_limit_or_default eth s to args)
  unfolding gas_limit_or_default get_gas_limit
  gas_limit_or_default-IsLimit to args = elim (Bool-cases (is_set args.gas_limit)) [
    | inl there ↦ rw (there, gas_limit_or_default, get_gas_limit) (given (set-not args there))
    | inr missing ↦
        let unset : IsUnset args = unset_cases args.gas_limit missing in
        elim (Result-cases (decode_hex eth args.payload)) [
          | inl (e, bad) ↦
              rw (missing, bad, gas_limit_or_default, get_gas_limit) (unreadable e unset bad)
          | inr (payload, good) ↦
              elim (Result-cases (s.estimate_gas (estimate_msg to args payload))) [
                | inl (e, failed) ↦
                    rw (missing, good, failed, gas_limit_or_default, get_gas_limit)
                      (not_estimated payload e unset good failed)
                | inr (g, done) ↦
                    rw (missing, good, done, gas_limit_or_default, get_gas_limit)
                      (estimated payload g unset good done)
              ]
        ]
  ]
