-- ===== src/Tests/Requests.antt =====
-- Runs of the encoders, the builders and the headers.
use go_builder_relayer_clien.Prelude.{
  ℕ, ◌+◌, ◌*◌, ◌^◌, ◌%◌, ◌≤◌, ◌≡◌, ◌↔◌, ◌⊎◌, inl, inr, refl, ap, arith, true, Option, none, some,
  List, [], ◌∷◌, ◌++◌, Text, Bytes, codes, length, take, replicate, All,
}
use go_builder_relayer_clien.Prelude.Int.{ℤ, pos, negsuc, abs}
use go_builder_relayer_clien.Golang.Positional.{value}
use go_builder_relayer_clien.Golang.BigInt.{big_bytes}
use go_builder_relayer_clien.Golang.Header.{Header}
use go_builder_relayer_clien.Golang.Strconv.{format_int, format_nat}
use go_builder_relayer_clien.Errors.{Error, wrapped, errors_is, nil_dereference, Result, ok, err}
use go_builder_relayer_clien.Errors.Sdk.{SdkError, sdk_is}
use go_builder_relayer_clien.Errors.Predefined.{
  err_bad_request, err_missing_signer, err_missing_creds,
}
use go_builder_relayer_clien.Errors.Laws.{Is-predefined}
use go_builder_relayer_clien.Types.{
  SafeTransactionArgs, ProxyTransactionArgs, TransactionRequest, SafeContractConfig,
  ProxyContractConfig, empty_signature_params,
}
use go_builder_relayer_clien.Signer.{SignsWithRecoveryBit, PrivateKeySigner, sign_message}
use go_builder_relayer_clien.Signer.Packable.{sign_message-packs}
use go_builder_relayer_clien.Config.{polygon_config}
use go_builder_relayer_clien.Utils.{left_pad_32, split_and_pack_sig, last_byte, parse_big_int}
use go_builder_relayer_clien.Utils.Words.{value-word}
use go_builder_relayer_clien.Utils.Integers.{parse_big_int-format_int}
use go_builder_relayer_clien.Utils.Signatures.{
  HasRecoveryBit, split_and_pack_sig_sound, split_and_pack_sig_complete,
}
use go_builder_relayer_clien.Encoder.{encode_packed_multisend}
use go_builder_relayer_clien.Encoder.Multisend.{
  Call, call_of, Denotes, done, more, unpack, packed_size,
}
use go_builder_relayer_clien.Encoder.Multisend.RoundTrip.{unpack-encode, encode-ok_iff}
use go_builder_relayer_clien.Builder.{
  ProxyStruct, proxy_struct_bytes, build_safe_transaction_request, build_proxy_transaction_request,
  gas_limit_or_default, default_gas_limit,
}
use go_builder_relayer_clien.Builder.ProxyHash.{Parts, Reads, Agree, proxy_struct_bytes_inj}
use go_builder_relayer_clien.Builder.Signed.{
  ProxySigned, SafeSigned, build_proxy-ProxySigned, build_safe-SafeSigned,
}
use go_builder_relayer_clien.Builder.Gas.{IsLimit, gas_limit_or_default-IsLimit}
use go_builder_relayer_clien.Effects.{History}
use go_builder_relayer_clien.Http.{
  exponential_backoff, parse_retry_after, sleep_with_context, http_error,
}
use go_builder_relayer_clien.Http.Backoff.{
  exponential_backoff_lem, parse_retry_after_exact, parse_retry_after_overflow, IsSound,
  parse_retry_after-IsSound,
}
use go_builder_relayer_clien.Http.Statuses.{IsUnlisted, errors_is_panics_iff}
use go_builder_relayer_clien.BuilderAuth.{BuilderConfig, headers, normalize_builder_timestamp}
use go_builder_relayer_clien.BuilderAuth.Timestamps.{normalize-agrees}
use go_builder_relayer_clien.BuilderAuth.Validity.{headers-refuses}
use go_builder_relayer_clien.BuilderAuth.Attributed.{IsComplete}
use go_builder_relayer_clien.BuilderAuth.Complete.{headers-IsComplete}
use go_builder_relayer_clien.Tests.{
  chain, chain-HasAddresses, curve, alice, signature, well, local_config, credentials, transfer,
}
use go_builder_relayer_clien.Errors.{ok-injective}
use go_builder_relayer_clien.Prelude.{get_elem?, sym, ◌<◌}

value-word_example : value 256 (left_pad_32 (big_bytes (negsuc 4))) ≡ 5 % 2 ^ 256
value-word_example = value-word (negsuc 4)

parse_big_int-format_int_example : parse_big_int (codes "-5") ≡ ok (negsuc 4)
unfolding format_int go_builder_relayer_clien.Golang.Positional.digits
parse_big_int-format_int_example = parse_big_int-format_int (negsuc 4)

split_and_pack_sig_sound_example :
    (b : ℕ) × (length signature ≡ 65)
    × HasRecoveryBit (last_byte signature) b
    × ((codes "0x" ++ (replicate 64 9 ++ 31 ∷ []))
        ≡ codes "0x" ++ (take 64 signature ++ ((31 + b) ∷ [])))
unfolding split_and_pack_sig
split_and_pack_sig_sound_example =
    split_and_pack_sig_sound chain signature (codes "0x" ++ (replicate 64 9 ++ 31 ∷ [])) refl

split_and_pack_sig_complete_example :
    split_and_pack_sig chain signature ≡ ok (codes "0x" ++ (take 64 signature ++ ((31 + 0) ∷ [])))
split_and_pack_sig_complete_example =
    split_and_pack_sig_complete chain signature 0 refl (omega arith, inr refl)

abbrev call : Call
call = call_of chain transfer (pos 5) (codes "12")

transfer-Denotes : Denotes chain (transfer ∷ []) (call ∷ [])
unfolding parse_big_int go_builder_relayer_clien.Utils.set_string
    go_builder_relayer_clien.Utils.has_0x go_builder_relayer_clien.Golang.Strings.trim_space
    go_builder_relayer_clien.Golang.BigInt.set_string10 go_builder_relayer_clien.Utils.decode_hex
transfer-Denotes = more transfer (pos 5) (codes "12") refl refl done

unpack-encode_example :
    (out : Bytes) × (encode_packed_multisend chain (transfer ∷ []) ≡ ok out)
    × (unpack out ≡ some (call ∷ []))
    × (length out ≡ packed_size (call ∷ []))
unpack-encode_example =
    unpack-encode chain chain-HasAddresses (transfer ∷ []) (call ∷ []) transfer-Denotes
      (omega arith, tt)

encode-ok_iff_example :
    ((out : Bytes) × (encode_packed_multisend chain (transfer ∷ []) ≡ ok out))
    ↔ ((calls : List Call) × Denotes chain (transfer ∷ []) calls)
encode-ok_iff_example = encode-ok_iff chain (transfer ∷ [])

abbrev struct : ProxyStruct
struct = record {
  from = codes "0xalice";
  to = codes "0xbob";
  payload = codes "0x12";
  tx_fee = codes "0";
  gas_price = codes "0";
  gas_limit = codes "21000";
  nonce = codes "7";
  relay_hub = codes "0xhub";
  relay = codes "0xrelay";
}

-- the value of a result that is one
abbrev value_or : {A : Type 0} → A → Result A → A
value_or other (ok a) = a
value_or other (err e) = other

abbrev struct_bytes : Bytes
struct_bytes = value_or [] (proxy_struct_bytes chain struct)

proxy_struct_bytes_inj_example :
    (x y : Parts) × Reads chain struct x × Reads chain struct y × Agree x y
unfolding go_builder_relayer_clien.Encoder.packed_call go_builder_relayer_clien.Encoder.pack_calls
    go_builder_relayer_clien.Encoder.encode_packed_multisend
    go_builder_relayer_clien.Encoder.create_safe_multisend_transaction
    go_builder_relayer_clien.Encoder.proxy_calls
    go_builder_relayer_clien.Encoder.encode_proxy_transaction_data
    go_builder_relayer_clien.Builder.create_proxy_data go_builder_relayer_clien.Builder.safe_tx_data
    go_builder_relayer_clien.Builder.derive_proxy_wallet_address
    go_builder_relayer_clien.Builder.derive_safe_address
    go_builder_relayer_clien.Builder.build_safe_create_transaction_request
    go_builder_relayer_clien.Builder.aggregate_safe_transactions
    go_builder_relayer_clien.Builder.create_safe_struct_hash
    go_builder_relayer_clien.Builder.build_safe_transaction_request
    go_builder_relayer_clien.Builder.proxy_struct_bytes
    go_builder_relayer_clien.Builder.create_proxy_struct_hash
    go_builder_relayer_clien.Builder.get_gas_limit
    go_builder_relayer_clien.Builder.gas_limit_or_default
    go_builder_relayer_clien.Builder.build_proxy_transaction_request
    go_builder_relayer_clien.Errors.Sdk.sdk_message go_builder_relayer_clien.Errors.Sdk.sdk_is
    go_builder_relayer_clien.Golang.Positional.digits_from
    go_builder_relayer_clien.Golang.Positional.digits
    go_builder_relayer_clien.Golang.Strconv.format_nat
    go_builder_relayer_clien.Golang.Strconv.format_int
    go_builder_relayer_clien.Golang.Strconv.digit_value
    go_builder_relayer_clien.Golang.Strconv.scan_decimal
    go_builder_relayer_clien.Golang.Strconv.parse_nat
    go_builder_relayer_clien.Golang.Strconv.parse_signed
    go_builder_relayer_clien.Golang.Strconv.atoi go_builder_relayer_clien.Golang.Base64.sextet
    go_builder_relayer_clien.Golang.Base64.letter go_builder_relayer_clien.Golang.Base64.one_byte
    go_builder_relayer_clien.Golang.Base64.two_bytes
    go_builder_relayer_clien.Golang.Base64.three_bytes
    go_builder_relayer_clien.Golang.Base64.decode_quanta
    go_builder_relayer_clien.Golang.Base64.drop_newlines
    go_builder_relayer_clien.Golang.Base64.decode go_builder_relayer_clien.Golang.Base64.encode
    go_builder_relayer_clien.Golang.BigInt.set_string_prefixed
    go_builder_relayer_clien.Golang.BigInt.set_string10
    go_builder_relayer_clien.Golang.BigInt.big_bytes
    go_builder_relayer_clien.Golang.Hex.decode_string
    go_builder_relayer_clien.Golang.Header.canonical_key
    go_builder_relayer_clien.Golang.Header.values_of
    go_builder_relayer_clien.Golang.Header.put_values
    go_builder_relayer_clien.Golang.Header.header_get
    go_builder_relayer_clien.Golang.Header.header_set
    go_builder_relayer_clien.Golang.Header.header_add
    go_builder_relayer_clien.Golang.Header.add_values go_builder_relayer_clien.Golang.Header.add_all
    go_builder_relayer_clien.Golang.Strings.trim_space
    go_builder_relayer_clien.Golang.Strings.trim_right
    go_builder_relayer_clien.Golang.Values.set_value go_builder_relayer_clien.Golang.Values.set_all
    go_builder_relayer_clien.Golang.Values.query_escape
    go_builder_relayer_clien.Golang.Values.encode
    go_builder_relayer_clien.Golang.Values.query_unescape
    go_builder_relayer_clien.Golang.Values.parse_query go_builder_relayer_clien.Errors.http_message
    go_builder_relayer_clien.Errors.message go_builder_relayer_clien.Errors.unwrapped_is
    go_builder_relayer_clien.Errors.errors_is go_builder_relayer_clien.Errors.http_code
    go_builder_relayer_clien.Prelude.Int.mul_int64 go_builder_relayer_clien.Prelude.Int.sub_int64
    go_builder_relayer_clien.Prelude.text_eq go_builder_relayer_clien.Prelude.has_prefix
    go_builder_relayer_clien.Utils.has_0x go_builder_relayer_clien.Utils.set_string
    go_builder_relayer_clien.Utils.parse_big_int go_builder_relayer_clien.Utils.left_pad_32
    go_builder_relayer_clien.Utils.decode_hex go_builder_relayer_clien.Utils.pack_v
    go_builder_relayer_clien.Utils.split_and_pack_sig
proxy_struct_bytes_inj_example =
    proxy_struct_bytes_inj chain chain-HasAddresses struct struct {b = struct_bytes} refl refl

abbrev safe_args : SafeTransactionArgs
safe_args = record {
  from = codes "0xalice";
  nonce = codes "7";
  chain_id = pos 137;
  transactions = transfer ∷ [];
}

abbrev proxy_args : ProxyTransactionArgs
proxy_args = record {
  from = codes "0xalice";
  nonce = codes "7";
  gas_price = codes "0";
  gas_limit = codes "";
  payload = codes "0x12";
  relay = codes "0xrelay";
}

abbrev blank : TransactionRequest
blank = record {
  kind = [];
  from = [];
  to = [];
  proxy_wallet = [];
  payload = [];
  nonce = [];
  signature = [];
  signature_params = empty_signature_params;
  metadata = [];
}

abbrev safe_config : SafeContractConfig
safe_config = polygon_config.safe_contracts

abbrev proxy_config : ProxyContractConfig
proxy_config = polygon_config.proxy_contracts

abbrev safe_request : TransactionRequest
safe_request =
    value_or blank (build_safe_transaction_request chain alice safe_args safe_config (codes "m"))

build_safe-SafeSigned_example : SafeSigned chain alice safe_args safe_config safe_request
unfolding go_builder_relayer_clien.Encoder.packed_call go_builder_relayer_clien.Encoder.pack_calls
    go_builder_relayer_clien.Encoder.encode_packed_multisend
    go_builder_relayer_clien.Encoder.create_safe_multisend_transaction
    go_builder_relayer_clien.Encoder.proxy_calls
    go_builder_relayer_clien.Encoder.encode_proxy_transaction_data
    go_builder_relayer_clien.Builder.create_proxy_data go_builder_relayer_clien.Builder.safe_tx_data
    go_builder_relayer_clien.Builder.derive_proxy_wallet_address
    go_builder_relayer_clien.Builder.derive_safe_address
    go_builder_relayer_clien.Builder.build_safe_create_transaction_request
    go_builder_relayer_clien.Builder.aggregate_safe_transactions
    go_builder_relayer_clien.Builder.create_safe_struct_hash
    go_builder_relayer_clien.Builder.build_safe_transaction_request
    go_builder_relayer_clien.Builder.proxy_struct_bytes
    go_builder_relayer_clien.Builder.create_proxy_struct_hash
    go_builder_relayer_clien.Builder.get_gas_limit
    go_builder_relayer_clien.Builder.gas_limit_or_default
    go_builder_relayer_clien.Builder.build_proxy_transaction_request
    go_builder_relayer_clien.Errors.Sdk.sdk_message go_builder_relayer_clien.Errors.Sdk.sdk_is
    go_builder_relayer_clien.Golang.Positional.digits_from
    go_builder_relayer_clien.Golang.Positional.digits
    go_builder_relayer_clien.Golang.Strconv.format_nat
    go_builder_relayer_clien.Golang.Strconv.format_int
    go_builder_relayer_clien.Golang.Strconv.digit_value
    go_builder_relayer_clien.Golang.Strconv.scan_decimal
    go_builder_relayer_clien.Golang.Strconv.parse_nat
    go_builder_relayer_clien.Golang.Strconv.parse_signed
    go_builder_relayer_clien.Golang.Strconv.atoi go_builder_relayer_clien.Golang.Base64.sextet
    go_builder_relayer_clien.Golang.Base64.letter go_builder_relayer_clien.Golang.Base64.one_byte
    go_builder_relayer_clien.Golang.Base64.two_bytes
    go_builder_relayer_clien.Golang.Base64.three_bytes
    go_builder_relayer_clien.Golang.Base64.decode_quanta
    go_builder_relayer_clien.Golang.Base64.drop_newlines
    go_builder_relayer_clien.Golang.Base64.decode go_builder_relayer_clien.Golang.Base64.encode
    go_builder_relayer_clien.Golang.BigInt.set_string_prefixed
    go_builder_relayer_clien.Golang.BigInt.set_string10
    go_builder_relayer_clien.Golang.BigInt.big_bytes
    go_builder_relayer_clien.Golang.Hex.decode_string
    go_builder_relayer_clien.Golang.Header.canonical_key
    go_builder_relayer_clien.Golang.Header.values_of
    go_builder_relayer_clien.Golang.Header.put_values
    go_builder_relayer_clien.Golang.Header.header_get
    go_builder_relayer_clien.Golang.Header.header_set
    go_builder_relayer_clien.Golang.Header.header_add
    go_builder_relayer_clien.Golang.Header.add_values go_builder_relayer_clien.Golang.Header.add_all
    go_builder_relayer_clien.Golang.Strings.trim_space
    go_builder_relayer_clien.Golang.Strings.trim_right
    go_builder_relayer_clien.Golang.Values.set_value go_builder_relayer_clien.Golang.Values.set_all
    go_builder_relayer_clien.Golang.Values.query_escape
    go_builder_relayer_clien.Golang.Values.encode
    go_builder_relayer_clien.Golang.Values.query_unescape
    go_builder_relayer_clien.Golang.Values.parse_query go_builder_relayer_clien.Errors.http_message
    go_builder_relayer_clien.Errors.message go_builder_relayer_clien.Errors.unwrapped_is
    go_builder_relayer_clien.Errors.errors_is go_builder_relayer_clien.Errors.http_code
    go_builder_relayer_clien.Prelude.Int.mul_int64 go_builder_relayer_clien.Prelude.Int.sub_int64
    go_builder_relayer_clien.Prelude.text_eq go_builder_relayer_clien.Prelude.has_prefix
    go_builder_relayer_clien.Utils.has_0x go_builder_relayer_clien.Utils.set_string
    go_builder_relayer_clien.Utils.parse_big_int go_builder_relayer_clien.Utils.left_pad_32
    go_builder_relayer_clien.Utils.decode_hex go_builder_relayer_clien.Utils.pack_v
    go_builder_relayer_clien.Utils.split_and_pack_sig
build_safe-SafeSigned_example =
    build_safe-SafeSigned chain alice safe_args safe_config (codes "m") safe_request refl

abbrev proxy_request : TransactionRequest
proxy_request =
    value_or blank (build_proxy_transaction_request chain alice proxy_args proxy_config (codes "m"))

build_proxy-ProxySigned_example : ProxySigned chain alice proxy_request
unfolding go_builder_relayer_clien.Encoder.packed_call go_builder_relayer_clien.Encoder.pack_calls
    go_builder_relayer_clien.Encoder.encode_packed_multisend
    go_builder_relayer_clien.Encoder.create_safe_multisend_transaction
    go_builder_relayer_clien.Encoder.proxy_calls
    go_builder_relayer_clien.Encoder.encode_proxy_transaction_data
    go_builder_relayer_clien.Builder.create_proxy_data go_builder_relayer_clien.Builder.safe_tx_data
    go_builder_relayer_clien.Builder.derive_proxy_wallet_address
    go_builder_relayer_clien.Builder.derive_safe_address
    go_builder_relayer_clien.Builder.build_safe_create_transaction_request
    go_builder_relayer_clien.Builder.aggregate_safe_transactions
    go_builder_relayer_clien.Builder.create_safe_struct_hash
    go_builder_relayer_clien.Builder.build_safe_transaction_request
    go_builder_relayer_clien.Builder.proxy_struct_bytes
    go_builder_relayer_clien.Builder.create_proxy_struct_hash
    go_builder_relayer_clien.Builder.get_gas_limit
    go_builder_relayer_clien.Builder.gas_limit_or_default
    go_builder_relayer_clien.Builder.build_proxy_transaction_request
    go_builder_relayer_clien.Errors.Sdk.sdk_message go_builder_relayer_clien.Errors.Sdk.sdk_is
    go_builder_relayer_clien.Golang.Positional.digits_from
    go_builder_relayer_clien.Golang.Positional.digits
    go_builder_relayer_clien.Golang.Strconv.format_nat
    go_builder_relayer_clien.Golang.Strconv.format_int
    go_builder_relayer_clien.Golang.Strconv.digit_value
    go_builder_relayer_clien.Golang.Strconv.scan_decimal
    go_builder_relayer_clien.Golang.Strconv.parse_nat
    go_builder_relayer_clien.Golang.Strconv.parse_signed
    go_builder_relayer_clien.Golang.Strconv.atoi go_builder_relayer_clien.Golang.Base64.sextet
    go_builder_relayer_clien.Golang.Base64.letter go_builder_relayer_clien.Golang.Base64.one_byte
    go_builder_relayer_clien.Golang.Base64.two_bytes
    go_builder_relayer_clien.Golang.Base64.three_bytes
    go_builder_relayer_clien.Golang.Base64.decode_quanta
    go_builder_relayer_clien.Golang.Base64.drop_newlines
    go_builder_relayer_clien.Golang.Base64.decode go_builder_relayer_clien.Golang.Base64.encode
    go_builder_relayer_clien.Golang.BigInt.set_string_prefixed
    go_builder_relayer_clien.Golang.BigInt.set_string10
    go_builder_relayer_clien.Golang.BigInt.big_bytes
    go_builder_relayer_clien.Golang.Hex.decode_string
    go_builder_relayer_clien.Golang.Header.canonical_key
    go_builder_relayer_clien.Golang.Header.values_of
    go_builder_relayer_clien.Golang.Header.put_values
    go_builder_relayer_clien.Golang.Header.header_get
    go_builder_relayer_clien.Golang.Header.header_set
    go_builder_relayer_clien.Golang.Header.header_add
    go_builder_relayer_clien.Golang.Header.add_values go_builder_relayer_clien.Golang.Header.add_all
    go_builder_relayer_clien.Golang.Strings.trim_space
    go_builder_relayer_clien.Golang.Strings.trim_right
    go_builder_relayer_clien.Golang.Values.set_value go_builder_relayer_clien.Golang.Values.set_all
    go_builder_relayer_clien.Golang.Values.query_escape
    go_builder_relayer_clien.Golang.Values.encode
    go_builder_relayer_clien.Golang.Values.query_unescape
    go_builder_relayer_clien.Golang.Values.parse_query go_builder_relayer_clien.Errors.http_message
    go_builder_relayer_clien.Errors.message go_builder_relayer_clien.Errors.unwrapped_is
    go_builder_relayer_clien.Errors.errors_is go_builder_relayer_clien.Errors.http_code
    go_builder_relayer_clien.Prelude.Int.mul_int64 go_builder_relayer_clien.Prelude.Int.sub_int64
    go_builder_relayer_clien.Prelude.text_eq go_builder_relayer_clien.Prelude.has_prefix
    go_builder_relayer_clien.Utils.has_0x go_builder_relayer_clien.Utils.set_string
    go_builder_relayer_clien.Utils.parse_big_int go_builder_relayer_clien.Utils.left_pad_32
    go_builder_relayer_clien.Utils.decode_hex go_builder_relayer_clien.Utils.pack_v
    go_builder_relayer_clien.Utils.split_and_pack_sig
build_proxy-ProxySigned_example =
    build_proxy-ProxySigned chain alice proxy_args proxy_config (codes "m") proxy_request refl

gas_limit_or_default-IsLimit_example :
    IsLimit chain alice
      (codes "0xfactory")
      proxy_args
      (gas_limit_or_default chain alice (codes "0xfactory") proxy_args)
gas_limit_or_default-IsLimit_example =
    gas_limit_or_default-IsLimit chain alice (codes "0xfactory") proxy_args

exponential_backoff_lem_example :
    exponential_backoff (pos 500_000_000) 12 ≡ pos (500_000_000 * 2 ^ 10)
exponential_backoff_lem_example = exponential_backoff_lem 500_000_000 12 (omega arith)

parse_retry_after_exact_example :
    parse_retry_after (λ t. none) (codes "120") (pos 0) ≡ some (pos 120_000_000_000)
unfolding format_int go_builder_relayer_clien.Golang.Positional.digits
parse_retry_after_exact_example = parse_retry_after_exact (λ t. none) (pos 0) 120 (omega arith)

parse_retry_after-IsSound_example : IsSound (format_int (pos 120)) (pos 120_000_000_000)
parse_retry_after-IsSound_example =
    parse_retry_after-IsSound (λ t. none) (format_int (pos 120)) (pos 0) (pos 120_000_000_000)
      (parse_retry_after_exact (λ t. none) (pos 0) 120 (omega arith))

parse_retry_after_overflow_example :
    (d : ℤ) × (parse_retry_after (λ t. none) (codes "9223372037") (pos 0) ≡ some d)
    × (sleep_with_context well d [] ≡ (ok tt, []))
unfolding format_int go_builder_relayer_clien.Golang.Positional.digits
parse_retry_after_overflow_example =
    parse_retry_after_overflow (λ t. none) (pos 0) 9_223_372_037 well [] (omega arith) (omega arith)

errors_is_panics_iff_example :
    (errors_is (wrapped [] (http_error 404 []) []) err_bad_request ≡ nil_dereference)
    ↔ IsUnlisted 404
errors_is_panics_iff_example = errors_is_panics_iff 404 [] [] [] err_bad_request

Is-predefined_example : (sdk_is err_missing_signer err_missing_creds ≡ true) ↔ (◌≡◌ {A = ℕ} 0 1)
Is-predefined_example = Is-predefined 0 1 err_missing_signer err_missing_creds refl refl

normalize-agrees_example :
    (normalize_builder_timestamp (pos 0) (pos 1_700_000_000)
      ≡ normalize_builder_timestamp (pos 0) (pos 1_700_000_000_000))
    × (normalize_builder_timestamp (pos 0) (normalize_builder_timestamp (pos 0) (pos 1_700_000_000))
        ≡ normalize_builder_timestamp (pos 0) (pos 1_700_000_000))
normalize-agrees_example = normalize-agrees (pos 0) 1_700_000_000 (omega arith) (omega arith)

abbrev no_passphrase : BuilderConfig
no_passphrase = record local_config { local = some (record credentials { passphrase = [] }) }

headers-refuses_example :
    (e : Error) × (headers well (some no_passphrase) (codes "GET") (codes "/nonce") none (pos 0) []
      ≡ (err e, []))
unfolding go_builder_relayer_clien.BuilderAuth.is_valid
headers-refuses_example =
    headers-refuses well (codes "GET") (codes "/nonce") none (pos 0) [] (some no_passphrase) refl

abbrev signed : Result Header × History
signed = headers well (some local_config) (codes "GET") (codes "/nonce") none (pos 0) []

headers-IsComplete_example : IsComplete (value_or [] signed.0)
unfolding go_builder_relayer_clien.Golang.Positional.digits_from
    go_builder_relayer_clien.Golang.Positional.digits
    go_builder_relayer_clien.Golang.Strconv.format_nat
    go_builder_relayer_clien.Golang.Strconv.format_int
    go_builder_relayer_clien.Golang.Strconv.digit_value
    go_builder_relayer_clien.Golang.Strconv.scan_decimal
    go_builder_relayer_clien.Golang.Strconv.parse_nat
    go_builder_relayer_clien.Golang.Strconv.parse_signed
    go_builder_relayer_clien.Golang.Strconv.atoi go_builder_relayer_clien.Golang.Base64.sextet
    go_builder_relayer_clien.Golang.Base64.letter go_builder_relayer_clien.Golang.Base64.one_byte
    go_builder_relayer_clien.Golang.Base64.two_bytes
    go_builder_relayer_clien.Golang.Base64.three_bytes
    go_builder_relayer_clien.Golang.Base64.decode_quanta
    go_builder_relayer_clien.Golang.Base64.drop_newlines
    go_builder_relayer_clien.Golang.Base64.decode go_builder_relayer_clien.Golang.Base64.encode
    go_builder_relayer_clien.Golang.BigInt.set_string_prefixed
    go_builder_relayer_clien.Golang.BigInt.set_string10
    go_builder_relayer_clien.Golang.BigInt.big_bytes
    go_builder_relayer_clien.Golang.Hex.decode_string
    go_builder_relayer_clien.Golang.Header.canonical_key
    go_builder_relayer_clien.Golang.Header.values_of
    go_builder_relayer_clien.Golang.Header.put_values
    go_builder_relayer_clien.Golang.Header.header_get
    go_builder_relayer_clien.Golang.Header.header_set
    go_builder_relayer_clien.Golang.Header.header_add
    go_builder_relayer_clien.Golang.Header.add_values go_builder_relayer_clien.Golang.Header.add_all
    go_builder_relayer_clien.Golang.Strings.trim_space
    go_builder_relayer_clien.Golang.Strings.trim_right
    go_builder_relayer_clien.Golang.Values.set_value go_builder_relayer_clien.Golang.Values.set_all
    go_builder_relayer_clien.Golang.Values.query_escape
    go_builder_relayer_clien.Golang.Values.encode
    go_builder_relayer_clien.Golang.Values.query_unescape
    go_builder_relayer_clien.Golang.Values.parse_query
    go_builder_relayer_clien.BuilderAuth.normalize_builder_timestamp
    go_builder_relayer_clien.BuilderAuth.is_valid go_builder_relayer_clien.BuilderAuth.decode_secret
    go_builder_relayer_clien.BuilderAuth.get_first
    go_builder_relayer_clien.BuilderAuth.headers_of_signed
    go_builder_relayer_clien.BuilderAuth.sign_hmac
    go_builder_relayer_clien.BuilderAuth.local_headers
    go_builder_relayer_clien.BuilderAuth.build_builder_headers_local
    go_builder_relayer_clien.BuilderAuth.signer_answer
    go_builder_relayer_clien.BuilderAuth.build_builder_headers_remote
    go_builder_relayer_clien.BuilderAuth.one_signer go_builder_relayer_clien.BuilderAuth.headers
    go_builder_relayer_clien.Prelude.Int.mul_int64 go_builder_relayer_clien.Prelude.Int.sub_int64
    go_builder_relayer_clien.Prelude.text_eq go_builder_relayer_clien.Prelude.has_prefix
headers-IsComplete_example =
    headers-IsComplete well (codes "GET") (codes "/nonce") none (λ k t. λ e. cc) (some local_config)
      (pos 0) [] signed.1 (value_or [] signed.0) refl

curve-SignsWithRecoveryBit : SignsWithRecoveryBit curve
curve-SignsWithRecoveryBit hash key sig e =
    let same : replicate 64 9 ++ 1 ∷ [] ≡ sig = ok-injective e in
    (ap length (sym same), 1, ap (λ (b : Bytes). get_elem? b 64) (sym same), omega arith)

abbrev holder : PrivateKeySigner chain curve
holder = record {
  key = codes "key";
  address = codes "0xalice";
  chain_id = pos 137;
  estimator = none;
}

sign_message-packs_example :
    (b : ℕ) × (b < 2)
    × (split_and_pack_sig chain (replicate 64 9 ++ 1 ∷ [])
        ≡ ok (codes "0x" ++ (take 64 (replicate 64 9 ++ 1 ∷ []) ++ ((31 + b) ∷ []))))
unfolding sign_message
sign_message-packs_example =
    sign_message-packs chain curve curve-SignsWithRecoveryBit holder (codes "hash")
      (replicate 64 9 ++ 1 ∷ []) refl
