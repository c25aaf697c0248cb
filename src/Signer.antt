-- ===== src/Signer.antt =====
-- pkg/signer/signer.go: the Signer interface, and the signer that holds a private key.
pub mod Packable
use go_builder_relayer_clien.Prelude.{
  ℕ, ◌+◌, ◌≡◌, ◌<◌, ◌&&◌, Option, none, some, ◌∷◌, ◌++◌, Text, Bytes, codes, text_eq, is_empty, ltb,
  if◌then◌else◌, length, take, drop, get_elem?,
}
use go_builder_relayer_clien.Prelude.Int.{ℤ}
use go_builder_relayer_clien.Errors.{plain, sdk, Result, ok, err, ◌>>=◌, wrap_error}
use go_builder_relayer_clien.Errors.Predefined.{err_missing_gas_estimator}
use go_builder_relayer_clien.Ethereum.{Ethereum, TypedData, CallMsg}

-- The interface. `address` is the Address() of 20 bytes; a signer whose answers change from one
-- call of the client to the next is a different value for each.
pub record Signer : Type 0 where
  pub address : Bytes
  pub chain_id : ℤ
  pub sign_message : Bytes → Result Bytes
  pub sign_typed_data : TypedData → Result Bytes
  pub estimate_gas : CallMsg → Result ℕ

-- The elliptic curve of go-ethereum: crypto.HexToECDSA, crypto.PubkeyToAddress, accounts.TextHash
-- and crypto.Sign.
pub record Curve : Type 1 where
  pub Key : Type 0
  pub hex_to_ecdsa : Text → Result Key
  pub pubkey_to_address : Key → Bytes
  pub text_hash : Bytes → Bytes
  pub sign : Bytes → Key → Result Bytes

-- crypto.Sign returns r, s and a recovery bit.
abbrev pub SignsWithRecoveryBit : Curve → Type 0
SignsWithRecoveryBit curve =
    (hash : Bytes) (key : curve.Key) (sig : Bytes)
    → curve.sign hash key ≡ ok sig
    → (length sig ≡ 65) × (b : ℕ) × (get_elem? sig 64 ≡ some b) × (b < 2)

-- if signature[64] < 27 { signature[64] += 27 }
unfoldable pub normalize_v : Bytes → Bytes
normalize_v sig = elim (get_elem? sig 64) [
  | none ↦ sig
  | some v ↦ if ltb v 27 then take 64 sig ++ ((v + 27) ∷ drop 65 sig) else sig
]

-- if len(hexKey) > 2 && hexKey[:2] == "0x" { hexKey = hexKey[2:] }
unfoldable pub strip_0x : Text → Text
unfolding text_eq
strip_0x s = if ltb 2 (length s) && text_eq (take 2 s) (codes "0x") then drop 2 s else s

module _ (eth : Ethereum) (curve : Curve) where
  open curve use {Key, hex_to_ecdsa, pubkey_to_address, text_hash, sign}

  pub record PrivateKeySigner : Type 0 where
    pub key : Key
    pub address : Bytes
    pub chain_id : ℤ
    pub estimator : Option (CallMsg → Result ℕ)

  unfoldable pub new_private_key_signer : Text → ℤ → Result PrivateKeySigner
  unfolding strip_0x
  new_private_key_signer hex_key chain_id = do
    key ← wrap_error (codes "invalid private key: ") (hex_to_ecdsa (strip_0x hex_key))
    ok (record {
      key = key;
      address = pubkey_to_address key;
      chain_id = chain_id;
      estimator = none;
    })

  unfoldable pub with_gas_estimator : PrivateKeySigner → (CallMsg → Result ℕ) → PrivateKeySigner
  with_gas_estimator s est = record s { estimator = some est }

  unfoldable pub sign_message : PrivateKeySigner → Bytes → Result Bytes
  sign_message s bytes =
      if is_empty bytes
      then err (plain (codes "message is required"))
      else wrap_error (codes "sign message: ") (sign (text_hash bytes) s.key)

  unfoldable pub sign_typed_data : PrivateKeySigner → TypedData → Result Bytes
  unfolding normalize_v
  sign_typed_data s typed_data = do
    sighash ← wrap_error (codes "failed to hash typed data: ") (eth.typed_data_hash typed_data)
    signature ← wrap_error (codes "failed to sign hash: ") (sign sighash s.key)
    ok (normalize_v signature)

  unfoldable pub estimate_gas : PrivateKeySigner → CallMsg → Result ℕ
  estimate_gas s msg = elim s.estimator [
    | none ↦ err (sdk err_missing_gas_estimator)
    | some est ↦ est msg
  ]

  -- *PrivateKeySigner as a Signer
  abbrev pub as_signer : PrivateKeySigner → Signer
  as_signer s = record {
    address = s.address;
    chain_id = s.chain_id;
    sign_message = sign_message s;
    sign_typed_data = sign_typed_data s;
    estimate_gas = estimate_gas s;
  }
