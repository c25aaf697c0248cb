-- ===== src/Tests/Calls.antt =====
-- Runs of the HTTP client and of the client of the relayer.
use go_builder_relayer_clien.Prelude.{
  ℕ, ◌+◌, ◌-◌, ◌*◌, ◌^◌, ◌≤◌, ◌≡◌, refl, ap, arith, Option, none, some, List, [], ◌∷◌, ◌++◌, Text,
  Bytes, codes,
}
use go_builder_relayer_clien.Prelude.Int.{ℤ, pos}
use go_builder_relayer_clien.Errors.{Error, wrap, Result, ok, err}
use go_builder_relayer_clien.Types.{RelayerTransaction, state_mined, state_failed}
use go_builder_relayer_clien.Golang.Header.{Header}
use go_builder_relayer_clien.Effects.{Host, History, Url}
use go_builder_relayer_clien.Http.{HttpClient, RequestOptions, http_do, target_of}
use go_builder_relayer_clien.Http.Attempts.{exchanges, http_do-bound}
use go_builder_relayer_clien.Http.Outcomes.{Succeeded, req_of, http_do-Succeeded}
use go_builder_relayer_clien.Http.Counter.{counted, http_do-counted, http_do-endless}
use go_builder_relayer_clien.Http.Exhaustion.{IsDown, http_do-exhausted}
use go_builder_relayer_clien.Client.{
  SubmittedTransaction, execute_safe_transactions, poll_until_state, polls_or_default,
}
use go_builder_relayer_clien.Client.Polling.{Reached, poll_until_state-Reached}
use go_builder_relayer_clien.Client.Guards.{SafeSubmitted, execute_safe-SafeSubmitted}
use go_builder_relayer_clien.Prelude.{false}
use go_builder_relayer_clien.Client.{deploy}
use go_builder_relayer_clien.Client.Guards.Deployment.{DeploySubmitted, deploy-DeploySubmitted}
use go_builder_relayer_clien.Tests.{
  chain, alice, well, busy, three_retries, no_options, client, transfer, mined,
}

-- the body, as it is
abbrev raw : Bytes → Result Bytes
raw b = ok b

abbrev address : Text
address = codes "https://relayer/nonce"

abbrev run : Result Bytes × History
run = http_do well raw [] (some three_retries) (codes "GET") address no_options []

http_do-Succeeded_example :
    (u : Url) × (well.parse_url address ≡ ok u)
    × Succeeded well raw []
        (req_of well raw [] (codes "GET") (target_of well u []) no_options)
        (codes "7")
        run.1
unfolding http_do go_builder_relayer_clien.Http.attempts go_builder_relayer_clien.Http.pause
    go_builder_relayer_clien.Http.try_once go_builder_relayer_clien.Http.send_once
    go_builder_relayer_clien.Http.judge go_builder_relayer_clien.Http.retry_later
    go_builder_relayer_clien.Http.proceed go_builder_relayer_clien.Http.sleep_with_context
    go_builder_relayer_clien.Http.exponential_backoff go_builder_relayer_clien.Prelude.Int.mul_int64
    go_builder_relayer_clien.Http.decoded
http_do-Succeeded_example =
    http_do-Succeeded well raw [] three_retries (codes "GET") address no_options [] run.1
      (codes "7") refl

abbrev parsed : Url
parsed = record { base = address; raw_query = [] }

busy-IsDown : IsDown busy (codes "GET") (target_of busy parsed []) no_options
busy-IsDown = record { built = refl; retried = λ h req. refl; rested = λ h d. refl }

http_do-exhausted_example :
    (e : Error) × ((http_do busy raw [] (some three_retries) (codes "GET") address no_options []).0
      ≡ err (wrap (codes "max retries exceeded: ") e))
    × (exchanges (http_do busy raw [] (some three_retries) (codes "GET") address no_options []).1
        ≡ 0 + (3 + 1))
http_do-exhausted_example =
    http_do-exhausted busy raw [] three_retries (codes "GET") address no_options parsed [] refl
      busy-IsDown

http_do-counted_example :
    counted busy raw [] three_retries
      (codes "GET")
      address
      (target_of busy parsed [])
      no_options
      5
      0
      none
      none
      []
    ≡ some (http_do busy raw [] (some three_retries) (codes "GET") address no_options [])
http_do-counted_example =
    http_do-counted busy raw [] three_retries (codes "GET") address no_options [] parsed
      (omega arith) refl

-- WithMaxRetries of the greatest uint
abbrev all_retries : HttpClient
all_retries = record three_retries { max_retries = 2 ^ 64 - 1 }

http_do-endless_example :
    counted busy raw [] all_retries
      (codes "GET")
      address
      (target_of busy parsed [])
      no_options
      1000
      0
      none
      none
      []
    ≡ none
http_do-endless_example =
    http_do-endless busy raw [] all_retries (codes "GET") address no_options [] parsed busy-IsDown
      refl 1000

http_do-bound_example :
    exchanges (http_do busy raw [] (some three_retries) (codes "GET") address no_options []).1
    ≤ 0 + (3 + 1)
http_do-bound_example = http_do-bound busy raw [] three_retries (codes "GET") address no_options []

abbrev polled : Result RelayerTransaction × History
polled =
    poll_until_state well client (codes "id") (state_mined ∷ []) state_failed (pos 2) (pos 0) []

poll_until_state-Reached_example :
    Reached well client (codes "id") (state_mined ∷ []) (mined (codes "7")) polled.1
unfolding go_builder_relayer_clien.Errors.Sdk.sdk_message go_builder_relayer_clien.Errors.Sdk.sdk_is
    go_builder_relayer_clien.Http.apply_option go_builder_relayer_clien.Http.new_http_client
    go_builder_relayer_clien.Http.http_error_for_status go_builder_relayer_clien.Http.after_seconds
    go_builder_relayer_clien.Http.parse_retry_after
    go_builder_relayer_clien.Http.exponential_backoff go_builder_relayer_clien.Http.proceed
    go_builder_relayer_clien.Http.sleep_with_context go_builder_relayer_clien.Http.send_once
    go_builder_relayer_clien.Http.pause go_builder_relayer_clien.Http.retry_later
    go_builder_relayer_clien.Http.decoded go_builder_relayer_clien.Http.judge
    go_builder_relayer_clien.Http.try_once go_builder_relayer_clien.Http.give_up
    go_builder_relayer_clien.Http.attempts go_builder_relayer_clien.Http.http_do
    go_builder_relayer_clien.Golang.Positional.digits_from
    go_builder_relayer_clien.Golang.Positional.digits
    go_builder_relayer_clien.Golang.Strconv.format_nat
    go_builder_relayer_clien.Golang.Strconv.format_int
    go_builder_relayer_clien.Golang.Strconv.digit_value
    go_builder_relayer_clien.Golang.Strconv.scan_decimal
    go_builder_relayer_clien.Golang.Strconv.parse_nat
    go_builder_relayer_clien.Golang.Strconv.parse_signed
    go_builder_relayer_clien.Golang.Strconv.atoi go_builder_relayer_clien.Golang.Base64.sextet
    go_builder_relayer_clien.Golang.Base64.letter go_builder_relayer_clien.Golang.Base64.one_byte
    go_builder_relayer_clien.Golang.Base64.two_bytes
    go_builder_relayer_clien.Golang.Base64.three_bytes
    go_builder_relayer_clien.Golang.Base64.decode_quanta
    go_builder_relayer_clien.Golang.Base64.drop_newlines
    go_builder_relayer_clien.Golang.Base64.decode go_builder_relayer_clien.Golang.Base64.encode
    go_builder_relayer_clien.Golang.BigInt.set_string_prefixed
    go_builder_relayer_clien.Golang.BigInt.set_string10
    go_builder_relayer_clien.Golang.BigInt.big_bytes
    go_builder_relayer_clien.Golang.Hex.decode_string
    go_builder_relayer_clien.Golang.Header.canonical_key
    go_builder_relayer_clien.Golang.Header.values_of
    go_builder_relayer_clien.Golang.Header.put_values
    go_builder_relayer_clien.Golang.Header.header_get
    go_builder_relayer_clien.Golang.Header.header_set
    go_builder_relayer_clien.Golang.Header.header_add
    go_builder_relayer_clien.Golang.Header.add_values go_builder_relayer_clien.Golang.Header.add_all
    go_builder_relayer_clien.Golang.Strings.trim_space
    go_builder_relayer_clien.Golang.Strings.trim_right
    go_builder_relayer_clien.Golang.Values.set_value go_builder_relayer_clien.Golang.Values.set_all
    go_builder_relayer_clien.Golang.Values.query_escape
    go_builder_relayer_clien.Golang.Values.encode
    go_builder_relayer_clien.Golang.Values.query_unescape
    go_builder_relayer_clien.Golang.Values.parse_query
    go_builder_relayer_clien.Client.new_relay_client go_builder_relayer_clien.Client.set_http_client
    go_builder_relayer_clien.Client.has_state go_builder_relayer_clien.Client.verdict_of
    go_builder_relayer_clien.Client.settle go_builder_relayer_clien.Client.send_signed
    go_builder_relayer_clien.Client.send go_builder_relayer_clien.Client.send_authed_request
    go_builder_relayer_clien.Client.get_nonce go_builder_relayer_clien.Client.get_relay_payload
    go_builder_relayer_clien.Client.get_transaction go_builder_relayer_clien.Client.get_transactions
    go_builder_relayer_clien.Client.get_deployed go_builder_relayer_clien.Client.submit
    go_builder_relayer_clien.Client.between_polls go_builder_relayer_clien.Client.poll_loop
    go_builder_relayer_clien.Client.poll_until_state
    go_builder_relayer_clien.Client.response_transaction go_builder_relayer_clien.Client.wait
    go_builder_relayer_clien.Client.wait_with_options
    go_builder_relayer_clien.Client.derive_safe_address_on
    go_builder_relayer_clien.Client.derive_proxy_address_on
    go_builder_relayer_clien.Client.execute_proxy_transactions
    go_builder_relayer_clien.Client.submit_safe_transactions
    go_builder_relayer_clien.Client.execute_safe_transactions
    go_builder_relayer_clien.Client.execute_with go_builder_relayer_clien.Client.execute
    go_builder_relayer_clien.Client.deploy_safe go_builder_relayer_clien.Client.deploy
    go_builder_relayer_clien.BuilderAuth.normalize_builder_timestamp
    go_builder_relayer_clien.BuilderAuth.is_valid go_builder_relayer_clien.BuilderAuth.decode_secret
    go_builder_relayer_clien.BuilderAuth.get_first
    go_builder_relayer_clien.BuilderAuth.headers_of_signed
    go_builder_relayer_clien.BuilderAuth.sign_hmac
    go_builder_relayer_clien.BuilderAuth.local_headers
    go_builder_relayer_clien.BuilderAuth.build_builder_headers_local
    go_builder_relayer_clien.BuilderAuth.signer_answer
    go_builder_relayer_clien.BuilderAuth.build_builder_headers_remote
    go_builder_relayer_clien.BuilderAuth.one_signer go_builder_relayer_clien.BuilderAuth.headers
    go_builder_relayer_clien.Errors.http_message go_builder_relayer_clien.Errors.message
    go_builder_relayer_clien.Errors.unwrapped_is go_builder_relayer_clien.Errors.errors_is
    go_builder_relayer_clien.Errors.http_code go_builder_relayer_clien.Prelude.Int.mul_int64
    go_builder_relayer_clien.Prelude.Int.sub_int64 go_builder_relayer_clien.Prelude.text_eq
    go_builder_relayer_clien.Prelude.has_prefix
poll_until_state-Reached_example =
    poll_until_state-Reached well client (codes "id") (state_mined ∷ []) state_failed (pos 2)
      (pos 0) [] polled.1 (mined (codes "7")) refl

abbrev executed : Result SubmittedTransaction × History
executed = execute_safe_transactions chain well client alice (transfer ∷ []) (codes "m") []

abbrev submitted : SubmittedTransaction
submitted = record {
  transaction_id = codes "7";
  state = codes "STATE_NEW";
  transaction_hash = codes "7";
}

execute_safe-SafeSubmitted_example :
    SafeSubmitted chain well client alice (transfer ∷ []) [] executed.1 submitted
unfolding go_builder_relayer_clien.Encoder.packed_call go_builder_relayer_clien.Encoder.pack_calls
    go_builder_relayer_clien.Encoder.encode_packed_multisend
    go_builder_relayer_clien.Encoder.create_safe_multisend_transaction
    go_builder_relayer_clien.Encoder.proxy_calls
    go_builder_relayer_clien.Encoder.encode_proxy_transaction_data
    go_builder_relayer_clien.Builder.create_proxy_data go_builder_relayer_clien.Builder.safe_tx_data
    go_builder_relayer_clien.Builder.derive_proxy_wallet_address
    go_builder_relayer_clien.Builder.derive_safe_address
    go_builder_relayer_clien.Builder.build_safe_create_transaction_request
    go_builder_relayer_clien.Builder.aggregate_safe_transactions
    go_builder_relayer_clien.Builder.create_safe_struct_hash
    go_builder_relayer_clien.Builder.build_safe_transaction_request
    go_builder_relayer_clien.Builder.proxy_struct_bytes
    go_builder_relayer_clien.Builder.create_proxy_struct_hash
    go_builder_relayer_clien.Builder.get_gas_limit
    go_builder_relayer_clien.Builder.gas_limit_or_default
    go_builder_relayer_clien.Builder.build_proxy_transaction_request
    go_builder_relayer_clien.Errors.Sdk.sdk_message go_builder_relayer_clien.Errors.Sdk.sdk_is
    go_builder_relayer_clien.Http.apply_option go_builder_relayer_clien.Http.new_http_client
    go_builder_relayer_clien.Http.http_error_for_status go_builder_relayer_clien.Http.after_seconds
    go_builder_relayer_clien.Http.parse_retry_after
    go_builder_relayer_clien.Http.exponential_backoff go_builder_relayer_clien.Http.proceed
    go_builder_relayer_clien.Http.sleep_with_context go_builder_relayer_clien.Http.send_once
    go_builder_relayer_clien.Http.pause go_builder_relayer_clien.Http.retry_later
    go_builder_relayer_clien.Http.decoded go_builder_relayer_clien.Http.judge
    go_builder_relayer_clien.Http.try_once go_builder_relayer_clien.Http.give_up
    go_builder_relayer_clien.Http.attempts go_builder_relayer_clien.Http.http_do
    go_builder_relayer_clien.Golang.Positional.digits_from
    go_builder_relayer_clien.Golang.Positional.digits
    go_builder_relayer_clien.Golang.Strconv.format_nat
    go_builder_relayer_clien.Golang.Strconv.format_int
    go_builder_relayer_clien.Golang.Strconv.digit_value
    go_builder_relayer_clien.Golang.Strconv.scan_decimal
    go_builder_relayer_clien.Golang.Strconv.parse_nat
    go_builder_relayer_clien.Golang.Strconv.parse_signed
    go_builder_relayer_clien.Golang.Strconv.atoi go_builder_relayer_clien.Golang.Base64.sextet
    go_builder_relayer_clien.Golang.Base64.letter go_builder_relayer_clien.Golang.Base64.one_byte
    go_builder_relayer_clien.Golang.Base64.two_bytes
    go_builder_relayer_clien.Golang.Base64.three_bytes
    go_builder_relayer_clien.Golang.Base64.decode_quanta
    go_builder_relayer_clien.Golang.Base64.drop_newlines
    go_builder_relayer_clien.Golang.Base64.decode go_builder_relayer_clien.Golang.Base64.encode
    go_builder_relayer_clien.Golang.BigInt.set_string_prefixed
    go_builder_relayer_clien.Golang.BigInt.set_string10
    go_builder_relayer_clien.Golang.BigInt.big_bytes
    go_builder_relayer_clien.Golang.Hex.decode_string
    go_builder_relayer_clien.Golang.Header.canonical_key
    go_builder_relayer_clien.Golang.Header.values_of
    go_builder_relayer_clien.Golang.Header.put_values
    go_builder_relayer_clien.Golang.Header.header_get
    go_builder_relayer_clien.Golang.Header.header_set
    go_builder_relayer_clien.Golang.Header.header_add
    go_builder_relayer_clien.Golang.Header.add_values go_builder_relayer_clien.Golang.Header.add_all
    go_builder_relayer_clien.Golang.Strings.trim_space
    go_builder_relayer_clien.Golang.Strings.trim_right
    go_builder_relayer_clien.Golang.Values.set_value go_builder_relayer_clien.Golang.Values.set_all
    go_builder_relayer_clien.Golang.Values.query_escape
    go_builder_relayer_clien.Golang.Values.encode
    go_builder_relayer_clien.Golang.Values.query_unescape
    go_builder_relayer_clien.Golang.Values.parse_query
    go_builder_relayer_clien.Client.new_relay_client go_builder_relayer_clien.Client.set_http_client
    go_builder_relayer_clien.Client.has_state go_builder_relayer_clien.Client.verdict_of
    go_builder_relayer_clien.Client.settle go_builder_relayer_clien.Client.send_signed
    go_builder_relayer_clien.Client.send go_builder_relayer_clien.Client.send_authed_request
    go_builder_relayer_clien.Client.get_nonce go_builder_relayer_clien.Client.get_relay_payload
    go_builder_relayer_clien.Client.get_transaction go_builder_relayer_clien.Client.get_transactions
    go_builder_relayer_clien.Client.get_deployed go_builder_relayer_clien.Client.submit
    go_builder_relayer_clien.Client.between_polls go_builder_relayer_clien.Client.poll_loop
    go_builder_relayer_clien.Client.poll_until_state
    go_builder_relayer_clien.Client.response_transaction go_builder_relayer_clien.Client.wait
    go_builder_relayer_clien.Client.wait_with_options
    go_builder_relayer_clien.Client.derive_safe_address_on
    go_builder_relayer_clien.Client.derive_proxy_address_on
    go_builder_relayer_clien.Client.execute_proxy_transactions
    go_builder_relayer_clien.Client.submit_safe_transactions
    go_builder_relayer_clien.Client.execute_safe_transactions
    go_builder_relayer_clien.Client.execute_with go_builder_relayer_clien.Client.execute
    go_builder_relayer_clien.Client.deploy_safe go_builder_relayer_clien.Client.deploy
    go_builder_relayer_clien.BuilderAuth.normalize_builder_timestamp
    go_builder_relayer_clien.BuilderAuth.is_valid go_builder_relayer_clien.BuilderAuth.decode_secret
    go_builder_relayer_clien.BuilderAuth.get_first
    go_builder_relayer_clien.BuilderAuth.headers_of_signed
    go_builder_relayer_clien.BuilderAuth.sign_hmac
    go_builder_relayer_clien.BuilderAuth.local_headers
    go_builder_relayer_clien.BuilderAuth.build_builder_headers_local
    go_builder_relayer_clien.BuilderAuth.signer_answer
    go_builder_relayer_clien.BuilderAuth.build_builder_headers_remote
    go_builder_relayer_clien.BuilderAuth.one_signer go_builder_relayer_clien.BuilderAuth.headers
    go_builder_relayer_clien.Errors.http_message go_builder_relayer_clien.Errors.message
    go_builder_relayer_clien.Errors.unwrapped_is go_builder_relayer_clien.Errors.errors_is
    go_builder_relayer_clien.Errors.http_code go_builder_relayer_clien.Prelude.Int.mul_int64
    go_builder_relayer_clien.Prelude.Int.sub_int64 go_builder_relayer_clien.Prelude.text_eq
    go_builder_relayer_clien.Prelude.has_prefix go_builder_relayer_clien.Utils.has_0x
    go_builder_relayer_clien.Utils.set_string go_builder_relayer_clien.Utils.parse_big_int
    go_builder_relayer_clien.Utils.left_pad_32 go_builder_relayer_clien.Utils.decode_hex
    go_builder_relayer_clien.Utils.pack_v go_builder_relayer_clien.Utils.split_and_pack_sig
execute_safe-SafeSubmitted_example =
    execute_safe-SafeSubmitted chain well client alice (transfer ∷ []) (codes "m") [] executed.1
      submitted refl

-- the same surroundings, where the Safe is not deployed
abbrev empty_chain : Host
empty_chain = record well { decode_deployed = λ b. ok (record { deployed = false }) }

abbrev deployed : Result SubmittedTransaction × History
deployed = deploy chain empty_chain client []

deploy-DeploySubmitted_example : DeploySubmitted chain empty_chain client [] deployed.1 submitted
unfolding go_builder_relayer_clien.Encoder.packed_call go_builder_relayer_clien.Encoder.pack_calls
    go_builder_relayer_clien.Encoder.encode_packed_multisend
    go_builder_relayer_clien.Encoder.create_safe_multisend_transaction
    go_builder_relayer_clien.Encoder.proxy_calls
    go_builder_relayer_clien.Encoder.encode_proxy_transaction_data
    go_builder_relayer_clien.Builder.create_proxy_data go_builder_relayer_clien.Builder.safe_tx_data
    go_builder_relayer_clien.Builder.derive_proxy_wallet_address
    go_builder_relayer_clien.Builder.derive_safe_address
    go_builder_relayer_clien.Builder.build_safe_create_transaction_request
    go_builder_relayer_clien.Builder.aggregate_safe_transactions
    go_builder_relayer_clien.Builder.create_safe_struct_hash
    go_builder_relayer_clien.Builder.build_safe_transaction_request
    go_builder_relayer_clien.Builder.proxy_struct_bytes
    go_builder_relayer_clien.Builder.create_proxy_struct_hash
    go_builder_relayer_clien.Builder.get_gas_limit
    go_builder_relayer_clien.Builder.gas_limit_or_default
    go_builder_relayer_clien.Builder.build_proxy_transaction_request
    go_builder_relayer_clien.Errors.Sdk.sdk_message go_builder_relayer_clien.Errors.Sdk.sdk_is
    go_builder_relayer_clien.Http.apply_option go_builder_relayer_clien.Http.new_http_client
    go_builder_relayer_clien.Http.http_error_for_status go_builder_relayer_clien.Http.after_seconds
    go_builder_relayer_clien.Http.parse_retry_after
    go_builder_relayer_clien.Http.exponential_backoff go_builder_relayer_clien.Http.proceed
    go_builder_relayer_clien.Http.sleep_with_context go_builder_relayer_clien.Http.send_once
    go_builder_relayer_clien.Http.pause go_builder_relayer_clien.Http.retry_later
    go_builder_relayer_clien.Http.decoded go_builder_relayer_clien.Http.judge
    go_builder_relayer_clien.Http.try_once go_builder_relayer_clien.Http.give_up
    go_builder_relayer_clien.Http.attempts go_builder_relayer_clien.Http.http_do
    go_builder_relayer_clien.Golang.Positional.digits_from
    go_builder_relayer_clien.Golang.Positional.digits
    go_builder_relayer_clien.Golang.Strconv.format_nat
    go_builder_relayer_clien.Golang.Strconv.format_int
    go_builder_relayer_clien.Golang.Strconv.digit_value
    go_builder_relayer_clien.Golang.Strconv.scan_decimal
    go_builder_relayer_clien.Golang.Strconv.parse_nat
    go_builder_relayer_clien.Golang.Strconv.parse_signed
    go_builder_relayer_clien.Golang.Strconv.atoi go_builder_relayer_clien.Golang.Base64.sextet
    go_builder_relayer_clien.Golang.Base64.letter go_builder_relayer_clien.Golang.Base64.one_byte
    go_builder_relayer_clien.Golang.Base64.two_bytes
    go_builder_relayer_clien.Golang.Base64.three_bytes
    go_builder_relayer_clien.Golang.Base64.decode_quanta
    go_builder_relayer_clien.Golang.Base64.drop_newlines
    go_builder_relayer_clien.Golang.Base64.decode go_builder_relayer_clien.Golang.Base64.encode
    go_builder_relayer_clien.Golang.BigInt.set_string_prefixed
    go_builder_relayer_clien.Golang.BigInt.set_string10
    go_builder_relayer_clien.Golang.BigInt.big_bytes
    go_builder_relayer_clien.Golang.Hex.decode_string
    go_builder_relayer_clien.Golang.Header.canonical_key
    go_builder_relayer_clien.Golang.Header.values_of
    go_builder_relayer_clien.Golang.Header.put_values
    go_builder_relayer_clien.Golang.Header.header_get
    go_builder_relayer_clien.Golang.Header.header_set
    go_builder_relayer_clien.Golang.Header.header_add
    go_builder_relayer_clien.Golang.Header.add_values go_builder_relayer_clien.Golang.Header.add_all
    go_builder_relayer_clien.Golang.Strings.trim_space
    go_builder_relayer_clien.Golang.Strings.trim_right
    go_builder_relayer_clien.Golang.Values.set_value go_builder_relayer_clien.Golang.Values.set_all
    go_builder_relayer_clien.Golang.Values.query_escape
    go_builder_relayer_clien.Golang.Values.encode
    go_builder_relayer_clien.Golang.Values.query_unescape
    go_builder_relayer_clien.Golang.Values.parse_query
    go_builder_relayer_clien.Client.new_relay_client go_builder_relayer_clien.Client.set_http_client
    go_builder_relayer_clien.Client.has_state go_builder_relayer_clien.Client.verdict_of
    go_builder_relayer_clien.Client.settle go_builder_relayer_clien.Client.send_signed
    go_builder_relayer_clien.Client.send go_builder_relayer_clien.Client.send_authed_request
    go_builder_relayer_clien.Client.get_nonce go_builder_relayer_clien.Client.get_relay_payload
    go_builder_relayer_clien.Client.get_transaction go_builder_relayer_clien.Client.get_transactions
    go_builder_relayer_clien.Client.get_deployed go_builder_relayer_clien.Client.submit
    go_builder_relayer_clien.Client.between_polls go_builder_relayer_clien.Client.poll_loop
    go_builder_relayer_clien.Client.poll_until_state
    go_builder_relayer_clien.Client.response_transaction go_builder_relayer_clien.Client.wait
    go_builder_relayer_clien.Client.wait_with_options
    go_builder_relayer_clien.Client.derive_safe_address_on
    go_builder_relayer_clien.Client.derive_proxy_address_on
    go_builder_relayer_clien.Client.execute_proxy_transactions
    go_builder_relayer_clien.Client.submit_safe_transactions
    go_builder_relayer_clien.Client.execute_safe_transactions
    go_builder_relayer_clien.Client.execute_with go_builder_relayer_clien.Client.execute
    go_builder_relayer_clien.Client.deploy_safe go_builder_relayer_clien.Client.deploy
    go_builder_relayer_clien.BuilderAuth.normalize_builder_timestamp
    go_builder_relayer_clien.BuilderAuth.is_valid go_builder_relayer_clien.BuilderAuth.decode_secret
    go_builder_relayer_clien.BuilderAuth.get_first
    go_builder_relayer_clien.BuilderAuth.headers_of_signed
    go_builder_relayer_clien.BuilderAuth.sign_hmac
    go_builder_relayer_clien.BuilderAuth.local_headers
    go_builder_relayer_clien.BuilderAuth.build_builder_headers_local
    go_builder_relayer_clien.BuilderAuth.signer_answer
    go_builder_relayer_clien.BuilderAuth.build_builder_headers_remote
    go_builder_relayer_clien.BuilderAuth.one_signer go_builder_relayer_clien.BuilderAuth.headers
    go_builder_relayer_clien.Errors.http_message go_builder_relayer_clien.Errors.message
    go_builder_relayer_clien.Errors.unwrapped_is go_builder_relayer_clien.Errors.errors_is
    go_builder_relayer_clien.Errors.http_code go_builder_relayer_clien.Prelude.Int.mul_int64
    go_builder_relayer_clien.Prelude.Int.sub_int64 go_builder_relayer_clien.Prelude.text_eq
    go_builder_relayer_clien.Prelude.has_prefix go_builder_relayer_clien.Utils.has_0x
    go_builder_relayer_clien.Utils.set_string go_builder_relayer_clien.Utils.parse_big_int
    go_builder_relayer_clien.Utils.left_pad_32 go_builder_relayer_clien.Utils.decode_hex
    go_builder_relayer_clien.Utils.pack_v go_builder_relayer_clien.Utils.split_and_pack_sig
deploy-DeploySubmitted_example =
    deploy-DeploySubmitted chain empty_chain client [] deployed.1 submitted refl
