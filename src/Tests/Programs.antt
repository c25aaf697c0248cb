-- ===== src/Tests/Programs.antt =====
-- Runs of Execute and of the example programs.
use go_builder_relayer_clien.Prelude.{
  ◌≡◌, refl, none, some, List, [], ◌∷◌, Text, codes, text_eq, if◌then◌else◌,
}
use go_builder_relayer_clien.Errors.{Result, ok, err}
use go_builder_relayer_clien.Types.{Transaction, RelayerTransaction, relayer_tx_proxy}
use go_builder_relayer_clien.Config.{polygon_config}
use go_builder_relayer_clien.Effects.{History}
use go_builder_relayer_clien.Client.{RelayClient, SubmittedTransaction, execute}
use go_builder_relayer_clien.Client.Guards.Execution.{Executed, execute-Executed}
use go_builder_relayer_clien.Examples.Setup.{end_to_end_setup, basic_setup}
use go_builder_relayer_clien.Examples.Programs.{Settled, end_to_end, basic}
use go_builder_relayer_clien.Examples.Programs.Outcomes.{
  IsSettled, Confirmed, end_to_end-IsSettled, basic-Confirmed,
}
use go_builder_relayer_clien.Tests.{chain, curve, well, client, mined}

abbrev token : Transaction
token = record { to = codes "0xbob"; payload = codes "0x12"; value = codes "5" }

abbrev proxy_client : RelayClient
proxy_client = record client { relay_tx_type = relayer_tx_proxy }

abbrev run : Result SubmittedTransaction × History
run = execute chain well proxy_client (token ∷ []) (codes "m") []

abbrev submitted : SubmittedTransaction
submitted = record {
  transaction_id = codes "7";
  state = codes "STATE_NEW";
  transaction_hash = codes "7";
}

execute-Executed_example : Executed chain well proxy_client (token ∷ []) [] run.1 submitted
unfolding go_builder_relayer_clien.Encoder.packed_call go_builder_relayer_clien.Encoder.pack_calls
    go_builder_relayer_clien.Encoder.encode_packed_multisend
    go_builder_relayer_clien.Encoder.create_safe_multisend_transaction
    go_builder_relayer_clien.Encoder.proxy_calls
    go_builder_relayer_clien.Encoder.encode_proxy_transaction_data
    go_builder_relayer_clien.Builder.create_proxy_data go_builder_relayer_clien.Builder.safe_tx_data
    go_builder_relayer_clien.Builder.derive_proxy_wallet_address
    go_builder_relayer_clien.Builder.derive_safe_address
    go_builder_relayer_clien.Builder.build_safe_create_transaction_request
    go_builder_relayer_clien.Builder.aggregate_safe_transactions
    go_builder_relayer_clien.Builder.create_safe_struct_hash
    go_builder_relayer_clien.Builder.build_safe_transaction_request
    go_builder_relayer_clien.Builder.proxy_struct_bytes
    go_builder_relayer_clien.Builder.create_proxy_struct_hash
    go_builder_relayer_clien.Builder.get_gas_limit
    go_builder_relayer_clien.Builder.gas_limit_or_default
    go_builder_relayer_clien.Builder.build_proxy_transaction_request
    go_builder_relayer_clien.Errors.Sdk.sdk_message go_builder_relayer_clien.Errors.Sdk.sdk_is
    go_builder_relayer_clien.Http.apply_option go_builder_relayer_clien.Http.new_http_client
    go_builder_relayer_clien.Http.http_error_for_status go_builder_relayer_clien.Http.after_seconds
    go_builder_relayer_clien.Http.parse_retry_after
    go_builder_relayer_clien.Http.exponential_backoff go_builder_relayer_clien.Http.proceed
    go_builder_relayer_clien.Http.sleep_with_context go_builder_relayer_clien.Http.send_once
    go_builder_relayer_clien.Http.pause go_builder_relayer_clien.Http.retry_later
    go_builder_relayer_clien.Http.decoded go_builder_relayer_clien.Http.judge
    go_builder_relayer_clien.Http.try_once go_builder_relayer_clien.Http.give_up
    go_builder_relayer_clien.Http.attempts go_builder_relayer_clien.Http.http_do
    go_builder_relayer_clien.Golang.ParseInt.parse_uint
    go_builder_relayer_clien.Golang.ParseInt.parse_int
    go_builder_relayer_clien.Golang.Positional.digits_from
    go_builder_relayer_clien.Golang.Positional.digits
    go_builder_relayer_clien.Golang.Strconv.format_nat
    go_builder_relayer_clien.Golang.Strconv.format_int
    go_builder_relayer_clien.Golang.Strconv.digit_value
    go_builder_relayer_clien.Golang.Strconv.scan_decimal
    go_builder_relayer_clien.Golang.Strconv.parse_nat
    go_builder_relayer_clien.Golang.Strconv.parse_signed
    go_builder_relayer_clien.Golang.Strconv.atoi go_builder_relayer_clien.Golang.Base64.sextet
    go_builder_relayer_clien.Golang.Base64.letter go_builder_relayer_clien.Golang.Base64.one_byte
    go_builder_relayer_clien.Golang.Base64.two_bytes
    go_builder_relayer_clien.Golang.Base64.three_bytes
    go_builder_relayer_clien.Golang.Base64.decode_quanta
    go_builder_relayer_clien.Golang.Base64.drop_newlines
    go_builder_relayer_clien.Golang.Base64.decode go_builder_relayer_clien.Golang.Base64.encode
    go_builder_relayer_clien.Golang.BigInt.set_string_prefixed
    go_builder_relayer_clien.Golang.BigInt.set_string10
    go_builder_relayer_clien.Golang.BigInt.big_bytes
    go_builder_relayer_clien.Golang.Hex.decode_string
    go_builder_relayer_clien.Golang.Header.canonical_key
    go_builder_relayer_clien.Golang.Header.values_of
    go_builder_relayer_clien.Golang.Header.put_values
    go_builder_relayer_clien.Golang.Header.header_get
    go_builder_relayer_clien.Golang.Header.header_set
    go_builder_relayer_clien.Golang.Header.header_add
    go_builder_relayer_clien.Golang.Header.add_values go_builder_relayer_clien.Golang.Header.add_all
    go_builder_relayer_clien.Golang.Strings.trim_space
    go_builder_relayer_clien.Golang.Strings.trim_right
    go_builder_relayer_clien.Golang.Values.set_value go_builder_relayer_clien.Golang.Values.set_all
    go_builder_relayer_clien.Golang.Values.query_escape
    go_builder_relayer_clien.Golang.Values.encode
    go_builder_relayer_clien.Golang.Values.query_unescape
    go_builder_relayer_clien.Golang.Values.parse_query
    go_builder_relayer_clien.Client.new_relay_client go_builder_relayer_clien.Client.set_http_client
    go_builder_relayer_clien.Client.has_state go_builder_relayer_clien.Client.verdict_of
    go_builder_relayer_clien.Client.settle go_builder_relayer_clien.Client.send_signed
    go_builder_relayer_clien.Client.send go_builder_relayer_clien.Client.send_authed_request
    go_builder_relayer_clien.Client.get_nonce go_builder_relayer_clien.Client.get_relay_payload
    go_builder_relayer_clien.Client.get_transaction go_builder_relayer_clien.Client.get_transactions
    go_builder_relayer_clien.Client.get_deployed go_builder_relayer_clien.Client.submit
    go_builder_relayer_clien.Client.between_polls go_builder_relayer_clien.Client.poll_loop
    go_builder_relayer_clien.Client.poll_until_state
    go_builder_relayer_clien.Client.response_transaction go_builder_relayer_clien.Client.wait
    go_builder_relayer_clien.Client.wait_with_options
    go_builder_relayer_clien.Client.derive_safe_address_on
    go_builder_relayer_clien.Client.derive_proxy_address_on
    go_builder_relayer_clien.Client.execute_proxy_transactions
    go_builder_relayer_clien.Client.submit_safe_transactions
    go_builder_relayer_clien.Client.execute_safe_transactions
    go_builder_relayer_clien.Client.execute_with go_builder_relayer_clien.Client.execute
    go_builder_relayer_clien.Client.deploy_safe go_builder_relayer_clien.Client.deploy
    go_builder_relayer_clien.Client.Session.perform go_builder_relayer_clien.Client.Session.session
    go_builder_relayer_clien.BuilderAuth.normalize_builder_timestamp
    go_builder_relayer_clien.BuilderAuth.is_valid go_builder_relayer_clien.BuilderAuth.decode_secret
    go_builder_relayer_clien.BuilderAuth.get_first
    go_builder_relayer_clien.BuilderAuth.headers_of_signed
    go_builder_relayer_clien.BuilderAuth.sign_hmac
    go_builder_relayer_clien.BuilderAuth.local_headers
    go_builder_relayer_clien.BuilderAuth.build_builder_headers_local
    go_builder_relayer_clien.BuilderAuth.read_signed
    go_builder_relayer_clien.BuilderAuth.signer_answer
    go_builder_relayer_clien.BuilderAuth.build_builder_headers_remote
    go_builder_relayer_clien.BuilderAuth.one_signer go_builder_relayer_clien.BuilderAuth.headers
    go_builder_relayer_clien.Errors.http_message go_builder_relayer_clien.Errors.message
    go_builder_relayer_clien.Errors.unwrapped_is go_builder_relayer_clien.Errors.errors_is
    go_builder_relayer_clien.Errors.http_code go_builder_relayer_clien.Prelude.Int.mul_int64
    go_builder_relayer_clien.Prelude.Int.sub_int64 go_builder_relayer_clien.Prelude.text_eq
    go_builder_relayer_clien.Prelude.has_prefix go_builder_relayer_clien.Utils.has_0x
    go_builder_relayer_clien.Utils.set_string go_builder_relayer_clien.Utils.parse_big_int
    go_builder_relayer_clien.Utils.left_pad_32 go_builder_relayer_clien.Utils.decode_hex
    go_builder_relayer_clien.Utils.pack_v go_builder_relayer_clien.Utils.split_and_pack_sig
execute-Executed_example =
    execute-Executed chain well proxy_client (token ∷ []) (codes "m") [] run.1 submitted refl

variable_of : List (Text × Text) → Text → Text
unfolding text_eq
variable_of [] name = []
variable_of ((key, val) ∷ rest) name =
    let other = variable_of rest name in if text_eq key name then val else other

abbrev getenv : Text → Text
getenv = variable_of (
    (codes "POLYMARKET_RELAYER_URL", codes "https://relayer/")
    ∷ (codes "CHAIN_ID", codes "137")
    ∷ (codes "PRIVATE_KEY", codes "0x0123456789abcdef0123")
    ∷ (codes "BUILDER_API_KEY", codes "key")
    ∷ (codes "BUILDER_SECRET", codes "c2VjcmV0")
    ∷ (codes "BUILDER_PASS_PHRASE", codes "pass")
    ∷ [])

abbrev settled : Settled
settled = record {
  deployment = none;
  receipt = mined (codes "7");
  transactions = mined (codes "7") ∷ [];
}

abbrev ended : Result Settled × History
ended = end_to_end chain well curve getenv []

end_to_end-IsSettled_example :
    (c : RelayClient) × (safe : Text) × (end_to_end_setup chain curve getenv ≡ ok (c, safe))
    × IsSettled chain well c safe [] ended.1 settled
unfolding go_builder_relayer_clien.Signer.normalize_v go_builder_relayer_clien.Signer.strip_0x
    go_builder_relayer_clien.Signer.new_private_key_signer
    go_builder_relayer_clien.Signer.with_gas_estimator go_builder_relayer_clien.Signer.sign_message
    go_builder_relayer_clien.Signer.sign_typed_data go_builder_relayer_clien.Signer.estimate_gas
    go_builder_relayer_clien.Encoder.packed_call go_builder_relayer_clien.Encoder.pack_calls
    go_builder_relayer_clien.Encoder.encode_packed_multisend
    go_builder_relayer_clien.Encoder.create_safe_multisend_transaction
    go_builder_relayer_clien.Encoder.proxy_calls
    go_builder_relayer_clien.Encoder.encode_proxy_transaction_data
    go_builder_relayer_clien.Builder.create_proxy_data go_builder_relayer_clien.Builder.safe_tx_data
    go_builder_relayer_clien.Builder.derive_proxy_wallet_address
    go_builder_relayer_clien.Builder.derive_safe_address
    go_builder_relayer_clien.Builder.build_safe_create_transaction_request
    go_builder_relayer_clien.Builder.aggregate_safe_transactions
    go_builder_relayer_clien.Builder.create_safe_struct_hash
    go_builder_relayer_clien.Builder.build_safe_transaction_request
    go_builder_relayer_clien.Builder.proxy_struct_bytes
    go_builder_relayer_clien.Builder.create_proxy_struct_hash
    go_builder_relayer_clien.Builder.get_gas_limit
    go_builder_relayer_clien.Builder.gas_limit_or_default
    go_builder_relayer_clien.Builder.build_proxy_transaction_request
    go_builder_relayer_clien.Errors.Sdk.sdk_message go_builder_relayer_clien.Errors.Sdk.sdk_is
    go_builder_relayer_clien.Config.get_contract_config go_builder_relayer_clien.Http.apply_option
    go_builder_relayer_clien.Http.new_http_client
    go_builder_relayer_clien.Http.http_error_for_status go_builder_relayer_clien.Http.after_seconds
    go_builder_relayer_clien.Http.parse_retry_after
    go_builder_relayer_clien.Http.exponential_backoff go_builder_relayer_clien.Http.proceed
    go_builder_relayer_clien.Http.sleep_with_context go_builder_relayer_clien.Http.send_once
    go_builder_relayer_clien.Http.pause go_builder_relayer_clien.Http.retry_later
    go_builder_relayer_clien.Http.decoded go_builder_relayer_clien.Http.judge
    go_builder_relayer_clien.Http.try_once go_builder_relayer_clien.Http.give_up
    go_builder_relayer_clien.Http.attempts go_builder_relayer_clien.Http.http_do
    go_builder_relayer_clien.Golang.ParseInt.parse_uint
    go_builder_relayer_clien.Golang.ParseInt.parse_int
    go_builder_relayer_clien.Golang.Positional.digits_from
    go_builder_relayer_clien.Golang.Positional.digits
    go_builder_relayer_clien.Golang.Strconv.format_nat
    go_builder_relayer_clien.Golang.Strconv.format_int
    go_builder_relayer_clien.Golang.Strconv.digit_value
    go_builder_relayer_clien.Golang.Strconv.scan_decimal
    go_builder_relayer_clien.Golang.Strconv.parse_nat
    go_builder_relayer_clien.Golang.Strconv.parse_signed
    go_builder_relayer_clien.Golang.Strconv.atoi go_builder_relayer_clien.Golang.Base64.sextet
    go_builder_relayer_clien.Golang.Base64.letter go_builder_relayer_clien.Golang.Base64.one_byte
    go_builder_relayer_clien.Golang.Base64.two_bytes
    go_builder_relayer_clien.Golang.Base64.three_bytes
    go_builder_relayer_clien.Golang.Base64.decode_quanta
    go_builder_relayer_clien.Golang.Base64.drop_newlines
    go_builder_relayer_clien.Golang.Base64.decode go_builder_relayer_clien.Golang.Base64.encode
    go_builder_relayer_clien.Golang.BigInt.set_string_prefixed
    go_builder_relayer_clien.Golang.BigInt.set_string10
    go_builder_relayer_clien.Golang.BigInt.big_bytes
    go_builder_relayer_clien.Golang.Hex.decode_string
    go_builder_relayer_clien.Golang.Header.canonical_key
    go_builder_relayer_clien.Golang.Header.values_of
    go_builder_relayer_clien.Golang.Header.put_values
    go_builder_relayer_clien.Golang.Header.header_get
    go_builder_relayer_clien.Golang.Header.header_set
    go_builder_relayer_clien.Golang.Header.header_add
    go_builder_relayer_clien.Golang.Header.add_values go_builder_relayer_clien.Golang.Header.add_all
    go_builder_relayer_clien.Golang.Strings.trim_space
    go_builder_relayer_clien.Golang.Strings.trim_right
    go_builder_relayer_clien.Golang.Values.set_value go_builder_relayer_clien.Golang.Values.set_all
    go_builder_relayer_clien.Golang.Values.query_escape
    go_builder_relayer_clien.Golang.Values.encode
    go_builder_relayer_clien.Golang.Values.query_unescape
    go_builder_relayer_clien.Golang.Values.parse_query
    go_builder_relayer_clien.Client.new_relay_client go_builder_relayer_clien.Client.set_http_client
    go_builder_relayer_clien.Client.has_state go_builder_relayer_clien.Client.verdict_of
    go_builder_relayer_clien.Client.settle go_builder_relayer_clien.Client.send_signed
    go_builder_relayer_clien.Client.send go_builder_relayer_clien.Client.send_authed_request
    go_builder_relayer_clien.Client.get_nonce go_builder_relayer_clien.Client.get_relay_payload
    go_builder_relayer_clien.Client.get_transaction go_builder_relayer_clien.Client.get_transactions
    go_builder_relayer_clien.Client.get_deployed go_builder_relayer_clien.Client.submit
    go_builder_relayer_clien.Client.between_polls go_builder_relayer_clien.Client.poll_loop
    go_builder_relayer_clien.Client.poll_until_state
    go_builder_relayer_clien.Client.response_transaction go_builder_relayer_clien.Client.wait
    go_builder_relayer_clien.Client.wait_with_options
    go_builder_relayer_clien.Client.derive_safe_address_on
    go_builder_relayer_clien.Client.derive_proxy_address_on
    go_builder_relayer_clien.Client.execute_proxy_transactions
    go_builder_relayer_clien.Client.submit_safe_transactions
    go_builder_relayer_clien.Client.execute_safe_transactions
    go_builder_relayer_clien.Client.execute_with go_builder_relayer_clien.Client.execute
    go_builder_relayer_clien.Client.deploy_safe go_builder_relayer_clien.Client.deploy
    go_builder_relayer_clien.Client.Session.perform go_builder_relayer_clien.Client.Session.session
    go_builder_relayer_clien.BuilderAuth.normalize_builder_timestamp
    go_builder_relayer_clien.BuilderAuth.is_valid go_builder_relayer_clien.BuilderAuth.decode_secret
    go_builder_relayer_clien.BuilderAuth.get_first
    go_builder_relayer_clien.BuilderAuth.headers_of_signed
    go_builder_relayer_clien.BuilderAuth.sign_hmac
    go_builder_relayer_clien.BuilderAuth.local_headers
    go_builder_relayer_clien.BuilderAuth.build_builder_headers_local
    go_builder_relayer_clien.BuilderAuth.read_signed
    go_builder_relayer_clien.BuilderAuth.signer_answer
    go_builder_relayer_clien.BuilderAuth.build_builder_headers_remote
    go_builder_relayer_clien.BuilderAuth.one_signer go_builder_relayer_clien.BuilderAuth.headers
    go_builder_relayer_clien.Errors.http_message go_builder_relayer_clien.Errors.message
    go_builder_relayer_clien.Errors.unwrapped_is go_builder_relayer_clien.Errors.errors_is
    go_builder_relayer_clien.Errors.http_code
    go_builder_relayer_clien.Examples.RemoteSigner.new_server
    go_builder_relayer_clien.Examples.RemoteSigner.answer_signed
    go_builder_relayer_clien.Examples.RemoteSigner.answer_request
    go_builder_relayer_clien.Examples.RemoteSigner.authorized
    go_builder_relayer_clien.Examples.RemoteSigner.sign_builder
    go_builder_relayer_clien.Examples.Environment.first_env
    go_builder_relayer_clien.Examples.Environment.upper
    go_builder_relayer_clien.Examples.Environment.to_upper
    go_builder_relayer_clien.Examples.Setup.build_builder_config
    go_builder_relayer_clien.Examples.Setup.basic_builder_config
    go_builder_relayer_clien.Examples.Setup.end_to_end_setup
    go_builder_relayer_clien.Examples.Setup.basic_setup
    go_builder_relayer_clien.Examples.Programs.execute_and_wait
    go_builder_relayer_clien.Examples.Programs.ensure_deployed
    go_builder_relayer_clien.Examples.Programs.end_to_end_run
    go_builder_relayer_clien.Examples.Programs.end_to_end
    go_builder_relayer_clien.Examples.Programs.basic go_builder_relayer_clien.Prelude.Int.mul_int64
    go_builder_relayer_clien.Prelude.Int.sub_int64 go_builder_relayer_clien.Prelude.text_eq
    go_builder_relayer_clien.Prelude.has_prefix go_builder_relayer_clien.Utils.has_0x
    go_builder_relayer_clien.Utils.set_string go_builder_relayer_clien.Utils.parse_big_int
    go_builder_relayer_clien.Utils.left_pad_32 go_builder_relayer_clien.Utils.decode_hex
    go_builder_relayer_clien.Utils.pack_v go_builder_relayer_clien.Utils.split_and_pack_sig
    variable_of
end_to_end-IsSettled_example = end_to_end-IsSettled chain well curve getenv [] ended.1 settled refl

abbrev simple : Result RelayerTransaction × History
simple = basic chain well curve getenv []

basic-Confirmed_example :
    (c : RelayClient) × (basic_setup chain curve getenv ≡ ok c)
    × Confirmed chain well c [] simple.1 (mined (codes "7"))
unfolding go_builder_relayer_clien.Signer.normalize_v go_builder_relayer_clien.Signer.strip_0x
    go_builder_relayer_clien.Signer.new_private_key_signer
    go_builder_relayer_clien.Signer.with_gas_estimator go_builder_relayer_clien.Signer.sign_message
    go_builder_relayer_clien.Signer.sign_typed_data go_builder_relayer_clien.Signer.estimate_gas
    go_builder_relayer_clien.Encoder.packed_call go_builder_relayer_clien.Encoder.pack_calls
    go_builder_relayer_clien.Encoder.encode_packed_multisend
    go_builder_relayer_clien.Encoder.create_safe_multisend_transaction
    go_builder_relayer_clien.Encoder.proxy_calls
    go_builder_relayer_clien.Encoder.encode_proxy_transaction_data
    go_builder_relayer_clien.Builder.create_proxy_data go_builder_relayer_clien.Builder.safe_tx_data
    go_builder_relayer_clien.Builder.derive_proxy_wallet_address
    go_builder_relayer_clien.Builder.derive_safe_address
    go_builder_relayer_clien.Builder.build_safe_create_transaction_request
    go_builder_relayer_clien.Builder.aggregate_safe_transactions
    go_builder_relayer_clien.Builder.create_safe_struct_hash
    go_builder_relayer_clien.Builder.build_safe_transaction_request
    go_builder_relayer_clien.Builder.proxy_struct_bytes
    go_builder_relayer_clien.Builder.create_proxy_struct_hash
    go_builder_relayer_clien.Builder.get_gas_limit
    go_builder_relayer_clien.Builder.gas_limit_or_default
    go_builder_relayer_clien.Builder.build_proxy_transaction_request
    go_builder_relayer_clien.Errors.Sdk.sdk_message go_builder_relayer_clien.Errors.Sdk.sdk_is
    go_builder_relayer_clien.Config.get_contract_config go_builder_relayer_clien.Http.apply_option
    go_builder_relayer_clien.Http.new_http_client
    go_builder_relayer_clien.Http.http_error_for_status go_builder_relayer_clien.Http.after_seconds
    go_builder_relayer_clien.Http.parse_retry_after
    go_builder_relayer_clien.Http.exponential_backoff go_builder_relayer_clien.Http.proceed
    go_builder_relayer_clien.Http.sleep_with_context go_builder_relayer_clien.Http.send_once
    go_builder_relayer_clien.Http.pause go_builder_relayer_clien.Http.retry_later
    go_builder_relayer_clien.Http.decoded go_builder_relayer_clien.Http.judge
    go_builder_relayer_clien.Http.try_once go_builder_relayer_clien.Http.give_up
    go_builder_relayer_clien.Http.attempts go_builder_relayer_clien.Http.http_do
    go_builder_relayer_clien.Golang.ParseInt.parse_uint
    go_builder_relayer_clien.Golang.ParseInt.parse_int
    go_builder_relayer_clien.Golang.Positional.digits_from
    go_builder_relayer_clien.Golang.Positional.digits
    go_builder_relayer_clien.Golang.Strconv.format_nat
    go_builder_relayer_clien.Golang.Strconv.format_int
    go_builder_relayer_clien.Golang.Strconv.digit_value
    go_builder_relayer_clien.Golang.Strconv.scan_decimal
    go_builder_relayer_clien.Golang.Strconv.parse_nat
    go_builder_relayer_clien.Golang.Strconv.parse_signed
    go_builder_relayer_clien.Golang.Strconv.atoi go_builder_relayer_clien.Golang.Base64.sextet
    go_builder_relayer_clien.Golang.Base64.letter go_builder_relayer_clien.Golang.Base64.one_byte
    go_builder_relayer_clien.Golang.Base64.two_bytes
    go_builder_relayer_clien.Golang.Base64.three_bytes
    go_builder_relayer_clien.Golang.Base64.decode_quanta
    go_builder_relayer_clien.Golang.Base64.drop_newlines
    go_builder_relayer_clien.Golang.Base64.decode go_builder_relayer_clien.Golang.Base64.encode
    go_builder_relayer_clien.Golang.BigInt.set_string_prefixed
    go_builder_relayer_clien.Golang.BigInt.set_string10
    go_builder_relayer_clien.Golang.BigInt.big_bytes
    go_builder_relayer_clien.Golang.Hex.decode_string
    go_builder_relayer_clien.Golang.Header.canonical_key
    go_builder_relayer_clien.Golang.Header.values_of
    go_builder_relayer_clien.Golang.Header.put_values
    go_builder_relayer_clien.Golang.Header.header_get
    go_builder_relayer_clien.Golang.Header.header_set
    go_builder_relayer_clien.Golang.Header.header_add
    go_builder_relayer_clien.Golang.Header.add_values go_builder_relayer_clien.Golang.Header.add_all
    go_builder_relayer_clien.Golang.Strings.trim_space
    go_builder_relayer_clien.Golang.Strings.trim_right
    go_builder_relayer_clien.Golang.Values.set_value go_builder_relayer_clien.Golang.Values.set_all
    go_builder_relayer_clien.Golang.Values.query_escape
    go_builder_relayer_clien.Golang.Values.encode
    go_builder_relayer_clien.Golang.Values.query_unescape
    go_builder_relayer_clien.Golang.Values.parse_query
    go_builder_relayer_clien.Client.new_relay_client go_builder_relayer_clien.Client.set_http_client
    go_builder_relayer_clien.Client.has_state go_builder_relayer_clien.Client.verdict_of
    go_builder_relayer_clien.Client.settle go_builder_relayer_clien.Client.send_signed
    go_builder_relayer_clien.Client.send go_builder_relayer_clien.Client.send_authed_request
    go_builder_relayer_clien.Client.get_nonce go_builder_relayer_clien.Client.get_relay_payload
    go_builder_relayer_clien.Client.get_transaction go_builder_relayer_clien.Client.get_transactions
    go_builder_relayer_clien.Client.get_deployed go_builder_relayer_clien.Client.submit
    go_builder_relayer_clien.Client.between_polls go_builder_relayer_clien.Client.poll_loop
    go_builder_relayer_clien.Client.poll_until_state
    go_builder_relayer_clien.Client.response_transaction go_builder_relayer_clien.Client.wait
    go_builder_relayer_clien.Client.wait_with_options
    go_builder_relayer_clien.Client.derive_safe_address_on
    go_builder_relayer_clien.Client.derive_proxy_address_on
    go_builder_relayer_clien.Client.execute_proxy_transactions
    go_builder_relayer_clien.Client.submit_safe_transactions
    go_builder_relayer_clien.Client.execute_safe_transactions
    go_builder_relayer_clien.Client.execute_with go_builder_relayer_clien.Client.execute
    go_builder_relayer_clien.Client.deploy_safe go_builder_relayer_clien.Client.deploy
    go_builder_relayer_clien.Client.Session.perform go_builder_relayer_clien.Client.Session.session
    go_builder_relayer_clien.BuilderAuth.normalize_builder_timestamp
    go_builder_relayer_clien.BuilderAuth.is_valid go_builder_relayer_clien.BuilderAuth.decode_secret
    go_builder_relayer_clien.BuilderAuth.get_first
    go_builder_relayer_clien.BuilderAuth.headers_of_signed
    go_builder_relayer_clien.BuilderAuth.sign_hmac
    go_builder_relayer_clien.BuilderAuth.local_headers
    go_builder_relayer_clien.BuilderAuth.build_builder_headers_local
    go_builder_relayer_clien.BuilderAuth.read_signed
    go_builder_relayer_clien.BuilderAuth.signer_answer
    go_builder_relayer_clien.BuilderAuth.build_builder_headers_remote
    go_builder_relayer_clien.BuilderAuth.one_signer go_builder_relayer_clien.BuilderAuth.headers
    go_builder_relayer_clien.Errors.http_message go_builder_relayer_clien.Errors.message
    go_builder_relayer_clien.Errors.unwrapped_is go_builder_relayer_clien.Errors.errors_is
    go_builder_relayer_clien.Errors.http_code
    go_builder_relayer_clien.Examples.RemoteSigner.new_server
    go_builder_relayer_clien.Examples.RemoteSigner.answer_signed
    go_builder_relayer_clien.Examples.RemoteSigner.answer_request
    go_builder_relayer_clien.Examples.RemoteSigner.authorized
    go_builder_relayer_clien.Examples.RemoteSigner.sign_builder
    go_builder_relayer_clien.Examples.Environment.first_env
    go_builder_relayer_clien.Examples.Environment.upper
    go_builder_relayer_clien.Examples.Environment.to_upper
    go_builder_relayer_clien.Examples.Setup.build_builder_config
    go_builder_relayer_clien.Examples.Setup.basic_builder_config
    go_builder_relayer_clien.Examples.Setup.end_to_end_setup
    go_builder_relayer_clien.Examples.Setup.basic_setup
    go_builder_relayer_clien.Examples.Programs.execute_and_wait
    go_builder_relayer_clien.Examples.Programs.ensure_deployed
    go_builder_relayer_clien.Examples.Programs.end_to_end_run
    go_builder_relayer_clien.Examples.Programs.end_to_end
    go_builder_relayer_clien.Examples.Programs.basic go_builder_relayer_clien.Prelude.Int.mul_int64
    go_builder_relayer_clien.Prelude.Int.sub_int64 go_builder_relayer_clien.Prelude.text_eq
    go_builder_relayer_clien.Prelude.has_prefix go_builder_relayer_clien.Utils.has_0x
    go_builder_relayer_clien.Utils.set_string go_builder_relayer_clien.Utils.parse_big_int
    go_builder_relayer_clien.Utils.left_pad_32 go_builder_relayer_clien.Utils.decode_hex
    go_builder_relayer_clien.Utils.pack_v go_builder_relayer_clien.Utils.split_and_pack_sig
    variable_of
basic-Confirmed_example =
    basic-Confirmed chain well curve getenv [] simple.1 (mined (codes "7")) refl
