-- ===== src/Encoder.antt =====
-- internal/encoder: the call data of a batch, for the Safe's MultiSend contract and for the proxy
-- factory. The proxyCall of encode_proxy.go is `ProxyCall` of Ethereum.
pub mod Multisend
use go_builder_relayer_clien.Prelude.{ℕ, List, [], ◌∷◌, ◌++◌, Text, Bytes, codes, length}
use go_builder_relayer_clien.Prelude.Int.{ℤ, pos}
use go_builder_relayer_clien.Golang.BigInt.{big_bytes}
use go_builder_relayer_clien.Errors.{Result, ok, ◌>>=◌, wrap_error}
use go_builder_relayer_clien.Types.{SafeTransaction, ProxyTransaction, operation_delegate_call}
use go_builder_relayer_clien.Ethereum.{Ethereum, ProxyCall}
use go_builder_relayer_clien.Utils.{parse_big_int, decode_hex, left_pad_32}

-- what one round of the loop appends
unfoldable pub packed_call : ℕ → Bytes → ℤ → Bytes → Bytes
packed_call operation to value payload =
    (operation ∷ [])
    ++ (to
        ++ (left_pad_32 (big_bytes value)
            ++ (left_pad_32 (big_bytes (pos (length payload))) ++ payload)))

module _ (eth : Ethereum) where
  -- the loop of encodePackedMultisend
  unfoldable pub pack_calls : Bytes → List SafeTransaction → Result Bytes
  unfolding packed_call
  pack_calls out [] = ok out
  pack_calls out (tx ∷ txns) = do
    value ← wrap_error (codes "invalid value: ") (parse_big_int tx.value)
    payload ← wrap_error (codes "invalid data: ") (decode_hex eth tx.payload)
    pack_calls (out ++ packed_call tx.operation (eth.hex_to_address tx.to) value payload) txns

  unfoldable pub encode_packed_multisend : List SafeTransaction → Result Bytes
  encode_packed_multisend txns = pack_calls [] txns

  unfoldable pub create_safe_multisend_transaction :
      List SafeTransaction → Text → Result SafeTransaction
  create_safe_multisend_transaction txns safe_multisend_address = do
    packed ← encode_packed_multisend txns
    payload ← wrap_error (codes "pack multisend: ") (eth.pack_multi_send packed)
    ok (record {
      to = safe_multisend_address;
      operation = operation_delegate_call;
      payload = eth.hexutil_encode payload;
      value = codes "0";
    })

  -- the loop of EncodeProxyTransactionData
  unfoldable pub proxy_calls : List ProxyCall → List ProxyTransaction → Result (List ProxyCall)
  proxy_calls calls [] = ok calls
  proxy_calls calls (tx ∷ txns) = do
    value ← wrap_error (codes "invalid value: ") (parse_big_int tx.value)
    payload ← wrap_error (codes "invalid data: ") (decode_hex eth tx.payload)
    proxy_calls
        (calls
          ++ (record {
            type_code = tx.type_code;
            to = eth.hex_to_address tx.to;
            value = value;
            payload = payload;
          }
              ∷ []))
        txns

  unfoldable pub encode_proxy_transaction_data : List ProxyTransaction → Result Text
  encode_proxy_transaction_data txns = do
    calls ← proxy_calls [] txns
    packed ← wrap_error (codes "pack proxy data: ") (eth.pack_proxy calls)
    ok (eth.hexutil_encode packed)
