-- ===== src/Errors/Codes.antt =====
-- pkg/errors/errors.go: the error codes.
use go_builder_relayer_clien.Prelude.{Text, codes}

abbrev pub ErrorCode : Type 0
ErrorCode = Text

abbrev pub code_missing_signer : ErrorCode
code_missing_signer = codes "AUTH-001"

abbrev pub code_missing_creds : ErrorCode
code_missing_creds = codes "AUTH-002"

abbrev pub code_missing_builder_config : ErrorCode
code_missing_builder_config = codes "AUTH-003"

abbrev pub code_invalid_signature : ErrorCode
code_invalid_signature = codes "AUTH-004"

abbrev pub code_unauthorized : ErrorCode
code_unauthorized = codes "AUTH-005"

abbrev pub code_proxy_wallet_unsupported : ErrorCode
code_proxy_wallet_unsupported = codes "WALLET-001"

abbrev pub code_safe_wallet_unsupported : ErrorCode
code_safe_wallet_unsupported = codes "WALLET-002"

abbrev pub code_config_unsupported : ErrorCode
code_config_unsupported = codes "RELAYER-001"

abbrev pub code_safe_deployed : ErrorCode
code_safe_deployed = codes "RELAYER-002"

abbrev pub code_safe_not_deployed : ErrorCode
code_safe_not_deployed = codes "RELAYER-003"

abbrev pub code_missing_gas_estimator : ErrorCode
code_missing_gas_estimator = codes "RELAYER-004"

abbrev pub code_no_transactions : ErrorCode
code_no_transactions = codes "RELAYER-005"

abbrev pub code_unsupported_tx_type : ErrorCode
code_unsupported_tx_type = codes "RELAYER-006"

abbrev pub code_invalid_nonce_payload : ErrorCode
code_invalid_nonce_payload = codes "RELAYER-007"

abbrev pub code_transaction_failed : ErrorCode
code_transaction_failed = codes "RELAYER-008"

abbrev pub code_transaction_timeout : ErrorCode
code_transaction_timeout = codes "RELAYER-009"

abbrev pub code_insufficient_funds : ErrorCode
code_insufficient_funds = codes "CLOB-001"

abbrev pub code_rate_limit_exceeded : ErrorCode
code_rate_limit_exceeded = codes "CLOB-002"

abbrev pub code_order_not_found : ErrorCode
code_order_not_found = codes "CLOB-003"

abbrev pub code_market_closed : ErrorCode
code_market_closed = codes "CLOB-004"

abbrev pub code_geoblocked : ErrorCode
code_geoblocked = codes "CLOB-005"

abbrev pub code_invalid_price : ErrorCode
code_invalid_price = codes "CLOB-006"

abbrev pub code_invalid_size : ErrorCode
code_invalid_size = codes "CLOB-007"

abbrev pub code_internal_server_error : ErrorCode
code_internal_server_error = codes "NET-001"

abbrev pub code_bad_request : ErrorCode
code_bad_request = codes "NET-002"

abbrev pub code_circuit_open : ErrorCode
code_circuit_open = codes "NET-003"

abbrev pub code_too_many_requests : ErrorCode
code_too_many_requests = codes "NET-004"

abbrev pub code_missing_request : ErrorCode
code_missing_request = codes "DATA-001"

abbrev pub code_missing_user : ErrorCode
code_missing_user = codes "DATA-002"

abbrev pub code_invalid_market_filter : ErrorCode
code_invalid_market_filter = codes "DATA-003"

abbrev pub code_invalid_trade_filter : ErrorCode
code_invalid_trade_filter = codes "DATA-004"

abbrev pub code_invalid_subscription : ErrorCode
code_invalid_subscription = codes "WS-001"

abbrev pub code_missing_u256_value : ErrorCode
code_missing_u256_value = codes "CTF-001"

abbrev pub code_missing_backend : ErrorCode
code_missing_backend = codes "CTF-002"

abbrev pub code_missing_transactor : ErrorCode
code_missing_transactor = codes "CTF-003"

abbrev pub code_neg_risk_adapter : ErrorCode
code_neg_risk_adapter = codes "CTF-004"

abbrev pub code_config_not_found : ErrorCode
code_config_not_found = codes "CTF-005"

abbrev pub code_missing_from_address : ErrorCode
code_missing_from_address = codes "BRIDGE-001"

abbrev pub code_missing_deposit_address : ErrorCode
code_missing_deposit_address = codes "BRIDGE-002"

abbrev pub code_withdraw_unsupported : ErrorCode
code_withdraw_unsupported = codes "BRIDGE-003"

abbrev pub code_missing_withdraw_request : ErrorCode
code_missing_withdraw_request = codes "BRIDGE-004"

abbrev pub code_missing_withdraw_address : ErrorCode
code_missing_withdraw_address = codes "BRIDGE-005"
