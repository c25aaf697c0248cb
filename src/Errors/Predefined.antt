-- ===== src/Errors/Predefined.antt =====
-- pkg/errors/errors.go: the errors that the package declares.
use go_builder_relayer_clien.Prelude.{List, [], ◌∷◌, codes}
use go_builder_relayer_clien.Errors.Sdk.{SdkError, new_error}
use go_builder_relayer_clien.Errors.Codes.{
  code_missing_signer, code_missing_creds, code_missing_builder_config, code_invalid_signature,
  code_unauthorized, code_proxy_wallet_unsupported, code_safe_wallet_unsupported,
  code_config_unsupported, code_safe_deployed, code_safe_not_deployed, code_missing_gas_estimator,
  code_no_transactions, code_unsupported_tx_type, code_invalid_nonce_payload,
  code_transaction_failed, code_transaction_timeout, code_insufficient_funds,
  code_rate_limit_exceeded, code_order_not_found, code_market_closed, code_geoblocked,
  code_invalid_price, code_invalid_size, code_internal_server_error, code_bad_request,
  code_circuit_open, code_too_many_requests, code_missing_request, code_missing_user,
  code_invalid_market_filter, code_invalid_trade_filter, code_invalid_subscription,
  code_missing_u256_value, code_missing_backend, code_missing_transactor, code_neg_risk_adapter,
  code_config_not_found, code_missing_from_address, code_missing_deposit_address,
  code_withdraw_unsupported, code_missing_withdraw_request, code_missing_withdraw_address,
}

abbrev pub err_missing_signer : SdkError
err_missing_signer = new_error code_missing_signer (codes "signer is required")

abbrev pub err_missing_creds : SdkError
err_missing_creds = new_error code_missing_creds (codes "api credentials are required")

abbrev pub err_missing_builder_config : SdkError
err_missing_builder_config =
    new_error code_missing_builder_config (codes "builder config is required")

abbrev pub err_invalid_signature : SdkError
err_invalid_signature = new_error code_invalid_signature (codes "invalid signature")

abbrev pub err_unauthorized : SdkError
err_unauthorized = new_error code_unauthorized (codes "unauthorized")

abbrev pub err_proxy_wallet_unsupported : SdkError
err_proxy_wallet_unsupported =
    new_error code_proxy_wallet_unsupported
      (codes "proxy wallet derivation not supported on this chain")

abbrev pub err_safe_wallet_unsupported : SdkError
err_safe_wallet_unsupported =
    new_error code_safe_wallet_unsupported
      (codes "safe wallet derivation not supported on this chain")

abbrev pub err_config_unsupported : SdkError
err_config_unsupported =
    new_error code_config_unsupported (codes "config is not supported on the chainId")

abbrev pub err_safe_deployed : SdkError
err_safe_deployed = new_error code_safe_deployed (codes "safe already deployed")

abbrev pub err_safe_not_deployed : SdkError
err_safe_not_deployed = new_error code_safe_not_deployed (codes "safe not deployed")

abbrev pub err_missing_gas_estimator : SdkError
err_missing_gas_estimator = new_error code_missing_gas_estimator (codes "gas estimator is required")

abbrev pub err_no_transactions : SdkError
err_no_transactions = new_error code_no_transactions (codes "no transactions to execute")

abbrev pub err_unsupported_tx_type : SdkError
err_unsupported_tx_type =
    new_error code_unsupported_tx_type (codes "unsupported relay transaction type")

abbrev pub err_invalid_nonce_payload : SdkError
err_invalid_nonce_payload =
    new_error code_invalid_nonce_payload (codes "invalid nonce payload received")

abbrev pub err_transaction_failed : SdkError
err_transaction_failed = new_error code_transaction_failed (codes "transaction failed onchain")

abbrev pub err_transaction_timeout : SdkError
err_transaction_timeout =
    new_error code_transaction_timeout
      (codes "transaction not found or not in desired state (timeout)")

abbrev pub err_insufficient_funds : SdkError
err_insufficient_funds = new_error code_insufficient_funds (codes "insufficient funds")

abbrev pub err_rate_limit_exceeded : SdkError
err_rate_limit_exceeded = new_error code_rate_limit_exceeded (codes "rate limit exceeded")

abbrev pub err_order_not_found : SdkError
err_order_not_found = new_error code_order_not_found (codes "order not found")

abbrev pub err_market_closed : SdkError
err_market_closed = new_error code_market_closed (codes "market closed")

abbrev pub err_geoblocked : SdkError
err_geoblocked = new_error code_geoblocked (codes "geoblocked")

abbrev pub err_invalid_price : SdkError
err_invalid_price = new_error code_invalid_price (codes "invalid price")

abbrev pub err_invalid_size : SdkError
err_invalid_size = new_error code_invalid_size (codes "invalid size")

abbrev pub err_internal_server_error : SdkError
err_internal_server_error = new_error code_internal_server_error (codes "internal server error")

abbrev pub err_bad_request : SdkError
err_bad_request = new_error code_bad_request (codes "bad request")

abbrev pub err_circuit_open : SdkError
err_circuit_open = new_error code_circuit_open (codes "circuit breaker is open")

abbrev pub err_too_many_requests : SdkError
err_too_many_requests = new_error code_too_many_requests (codes "too many requests")

abbrev pub err_missing_request : SdkError
err_missing_request = new_error code_missing_request (codes "request is required")

abbrev pub err_missing_user : SdkError
err_missing_user = new_error code_missing_user (codes "user is required")

abbrev pub err_invalid_market_filter : SdkError
err_invalid_market_filter =
    new_error code_invalid_market_filter
      (codes "market filter cannot include both markets and event IDs")

abbrev pub err_invalid_trade_filter : SdkError
err_invalid_trade_filter =
    new_error code_invalid_trade_filter (codes "trade filter requires both filter type and amount")

abbrev pub err_invalid_subscription : SdkError
err_invalid_subscription = new_error code_invalid_subscription (codes "invalid subscription")

abbrev pub err_missing_u256_value : SdkError
err_missing_u256_value = new_error code_missing_u256_value (codes "missing numeric value")

abbrev pub err_missing_backend : SdkError
err_missing_backend = new_error code_missing_backend (codes "ctf backend is required")

abbrev pub err_missing_transactor : SdkError
err_missing_transactor = new_error code_missing_transactor (codes "ctf transactor is required")

abbrev pub err_neg_risk_adapter : SdkError
err_neg_risk_adapter = new_error code_neg_risk_adapter (codes "neg risk adapter is not configured")

abbrev pub err_config_not_found : SdkError
err_config_not_found =
    new_error code_config_not_found (codes "ctf contract config not found for chain ID")

abbrev pub err_missing_from_address : SdkError
err_missing_from_address =
    new_error code_missing_from_address (codes "bridge transactor missing from address")

abbrev pub err_missing_deposit_address : SdkError
err_missing_deposit_address =
    new_error code_missing_deposit_address (codes "evm deposit address is missing")

abbrev pub err_withdraw_unsupported : SdkError
err_withdraw_unsupported =
    new_error code_withdraw_unsupported
      (codes "bridge withdraw is not supported via the API; use WithdrawTo for on-chain transfers")

abbrev pub err_missing_withdraw_request : SdkError
err_missing_withdraw_request =
    new_error code_missing_withdraw_request (codes "withdraw request is required")

abbrev pub err_missing_withdraw_address : SdkError
err_missing_withdraw_address =
    new_error code_missing_withdraw_address (codes "withdraw destination is required")

-- an alias of the package
abbrev pub err_signer_unavailable : SdkError
err_signer_unavailable = err_missing_signer

-- all of them, in the order of the file
abbrev pub predefined : List SdkError
predefined =
    err_missing_signer ∷ err_missing_creds ∷ err_missing_builder_config ∷ err_invalid_signature
    ∷ err_unauthorized ∷ err_proxy_wallet_unsupported ∷ err_safe_wallet_unsupported
    ∷ err_config_unsupported ∷ err_safe_deployed ∷ err_safe_not_deployed ∷ err_missing_gas_estimator
    ∷ err_no_transactions ∷ err_unsupported_tx_type ∷ err_invalid_nonce_payload
    ∷ err_transaction_failed ∷ err_transaction_timeout ∷ err_insufficient_funds
    ∷ err_rate_limit_exceeded ∷ err_order_not_found ∷ err_market_closed ∷ err_geoblocked
    ∷ err_invalid_price ∷ err_invalid_size ∷ err_internal_server_error ∷ err_bad_request
    ∷ err_circuit_open ∷ err_too_many_requests ∷ err_missing_request ∷ err_missing_user
    ∷ err_invalid_market_filter ∷ err_invalid_trade_filter ∷ err_invalid_subscription
    ∷ err_missing_u256_value ∷ err_missing_backend ∷ err_missing_transactor ∷ err_neg_risk_adapter
    ∷ err_config_not_found ∷ err_missing_from_address ∷ err_missing_deposit_address
    ∷ err_withdraw_unsupported ∷ err_missing_withdraw_request ∷ err_missing_withdraw_address ∷ []
