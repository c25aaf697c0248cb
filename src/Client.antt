-- ===== src/Client.antt =====
-- client.go, endpoints.go and response.go: the client of the relayer. The field sleepFn of the client
-- is always sleepWithContext, which is what NewRelayClient sets and what nil stands for.
pub mod Polling
pub mod Budget
pub mod Session
pub mod Attribution
pub mod Guards
use go_builder_relayer_clien.Prelude.{
  ℕ, zero, suc, Bool, true, false, ◌&&◌, Option, none, some, List, [], ◌∷◌, ◌++◌, map, Text, Bytes,
  codes, text_eq, is_empty, not, if◌then◌else◌,
}
use go_builder_relayer_clien.Prelude.Int.{ℤ, pos, negsuc, ltb_ℤ}
use go_builder_relayer_clien.Golang.Strings.{trim_right}
use go_builder_relayer_clien.Golang.Header.{Header, add_all}
use go_builder_relayer_clien.Golang.Values.{set_all, encode}
use go_builder_relayer_clien.Errors.{Error, sdk, wrapped, Result, ok, err, wrap_error}
use go_builder_relayer_clien.Errors.Predefined.{
  err_signer_unavailable, err_no_transactions, err_unsupported_tx_type, err_config_unsupported,
  err_safe_not_deployed, err_safe_deployed, err_invalid_nonce_payload, err_transaction_failed,
  err_transaction_timeout, err_missing_builder_config,
}
use go_builder_relayer_clien.Types.{
  NoncePayload, RelayPayload, RelayerTransaction, RelayerTransactionResponse, Transaction,
  SafeTransaction, ProxyTransaction, ContractConfig, TransactionRequest, relayer_tx_safe,
  relayer_tx_proxy, transaction_type_safe, transaction_type_proxy, operation_call, call_type_call,
  zero_address, state_mined, state_confirmed, state_failed,
}
use go_builder_relayer_clien.Ethereum.{Ethereum}
use go_builder_relayer_clien.Signer.{Signer}
use go_builder_relayer_clien.Config.{
  get_contract_config, is_safe_contract_config_valid, is_proxy_contract_config_valid,
}
use go_builder_relayer_clien.Encoder.{encode_proxy_transaction_data}
use go_builder_relayer_clien.Builder.{
  derive_safe_address, derive_proxy_wallet_address, build_safe_transaction_request,
  build_safe_create_transaction_request, build_proxy_transaction_request,
}
use go_builder_relayer_clien.BuilderAuth.{BuilderConfig, is_valid, headers}
use go_builder_relayer_clien.Effects.{checked, Host, Go, ◌>>=◌, ◌>>◌, lift, pure, fail, emit, ask}
use go_builder_relayer_clien.Http.{
  HttpClient, RequestOptions, new_http_client, sleep_with_context, http_do,
}

-- endpoints.go
abbrev pub get_nonce_endpoint : Text
get_nonce_endpoint = codes "/nonce"

abbrev pub get_relay_payload_endpoint : Text
get_relay_payload_endpoint = codes "/relay-payload"

abbrev pub get_transaction_endpoint : Text
get_transaction_endpoint = codes "/transaction"

abbrev pub get_transactions_endpoint : Text
get_transactions_endpoint = codes "/transactions"

abbrev pub submit_transaction_endpoint : Text
submit_transaction_endpoint = codes "/submit"

abbrev pub get_deployed_endpoint : Text
get_deployed_endpoint = codes "/deployed"

pub record RelayClient : Type 0 where
  pub relayer_url : Text
  pub chain_id : ℤ
  pub relay_tx_type : Text
  pub contract_config : ContractConfig
  pub http_client : HttpClient
  pub signer : Option Signer
  pub builder_config : Option BuilderConfig

-- NewRelayClient
unfoldable pub new_relay_client :
    Text → ℤ → Option Signer → Option BuilderConfig → Text → Result RelayClient
new_relay_client relayer_url chain_id signer builder_config relay_tx_type =
    elim (get_contract_config chain_id) [
      | err e ↦ err e
      | ok config ↦ ok (record {
        relayer_url = trim_right relayer_url b'/';
        chain_id = chain_id;
        relay_tx_type = if is_empty relay_tx_type then relayer_tx_safe else relay_tx_type;
        contract_config = config;
        http_client = new_http_client [];
        signer = signer;
        builder_config = builder_config;
      })
    ]

-- SetHTTPClient: nil changes nothing
unfoldable pub set_http_client : RelayClient → Option HttpClient → RelayClient
set_http_client c none = c
set_http_client c (some http_client) = record c { http_client = http_client }

-- ClientRelayerTransactionResponse, less its pointer to the client
pub record SubmittedTransaction : Type 0 where
  pub transaction_id : Text
  pub state : Text
  pub transaction_hash : Text

abbrev pub submitted_of : RelayerTransactionResponse → SubmittedTransaction
submitted_of r = record {
  transaction_id = r.transaction_id;
  state = r.state;
  transaction_hash = r.transaction_hash;
}

-- value := tx.Value; if value == "" { value = "0" }
abbrev pub value_or_zero : Text → Text
value_or_zero v = if is_empty v then codes "0" else v

abbrev pub to_safe_transaction : Transaction → SafeTransaction
to_safe_transaction tx = record {
  to = tx.to;
  operation = operation_call;
  payload = tx.payload;
  value = value_or_zero tx.value;
}

abbrev pub to_proxy_transaction : Transaction → ProxyTransaction
to_proxy_transaction tx = record {
  to = tx.to;
  type_code = call_type_call;
  payload = tx.payload;
  value = value_or_zero tx.value;
}

-- the query that `send` signs: "" or "?" and the encoded parameters
abbrev pub query_of : List (Text × Text) → Text
query_of [] = []
query_of (p ∷ params) =
    let encoded = encode (set_all (p ∷ params) []) in
    if is_empty encoded then [] else codes "?" ++ encoded

-- what a look at the newest transaction tells
pub data Verdict : Type 0 where
  reached : RelayerTransaction → Verdict
  broke_down : Text → Verdict
  pending : Verdict

-- _, ok := stateSet[state]
unfoldable pub has_state : List Text → Text → Bool
unfolding text_eq
has_state [] state = false
has_state (s ∷ states) state = if text_eq s state then true else has_state states state

unfoldable pub verdict_of : List Text → Text → List RelayerTransaction → Verdict
unfolding has_state
verdict_of states fail_state [] = pending
verdict_of states fail_state (txn ∷ _) =
    if has_state states txn.state
    then reached txn
    else if not (is_empty fail_state) && text_eq txn.state fail_state
    then broke_down txn.transaction_hash
    else pending

-- the end of a round, or what comes behind it
unfoldable pub settle : Verdict → Go RelayerTransaction → Go RelayerTransaction
settle (reached txn) go_on = pure txn
settle (broke_down hash) go_on = fail (wrapped [] (sdk err_transaction_failed) (codes ": " ++ hash))
settle pending go_on = go_on

-- if maxPolls <= 0 { maxPolls = 10 }
abbrev pub polls_or_default : ℤ → ℕ → ℕ
polls_or_default (pos zero) default = default
polls_or_default (pos (suc n)) default = suc n
polls_or_default (negsuc n) default = default

-- if pollFrequency < time.Second { pollFrequency = 2 * time.Second }
abbrev pub frequency_or_default : ℤ → ℤ
frequency_or_default f = if ltb_ℤ f (pos 1_000_000_000) then pos 2_000_000_000 else f

abbrev pub error_or_ok : Option Error → Result (Unit {0})
error_or_ok none = ok tt
error_or_ok (some e) = err e

module _ (host : Host) where
  -- the request behind the headers
  unfoldable pub send_signed :
      {A : Type 0}
      → (Bytes → Result A)
      → A
      → RelayClient
      → Text
      → Text
      → RequestOptions
      → Header
      → Go A
  send_signed decode zero_value c path method opts more =
      http_do host decode zero_value (some c.http_client) method (c.relayer_url ++ path)
        (record opts { headers = add_all more opts.headers })

  -- (*RelayClient).send, with a decoder and a zero value for `out`
  unfoldable pub send :
      {A : Type 0} → (Bytes → Result A) → A → RelayClient → Text → Text → RequestOptions → Go A
  send decode zero_value c path method opts =
      if is_valid c.builder_config
      then (headers host c.builder_config method (path ++ query_of opts.params) (some opts.body)
            (pos 0)
          >>= λ more. send_signed decode zero_value c path method opts more)
      else fail (sdk err_missing_builder_config)

  abbrev pub with_params : List (Text × Text) → RequestOptions
  with_params params = record { headers = []; params = params; body = [] }

  -- sendAuthedRequest: options with a body and no parameters
  unfoldable pub send_authed_request :
      {A : Type 0} → (Bytes → Result A) → A → RelayClient → Text → Text → Bytes → Go A
  send_authed_request decode zero_value c method path body =
      send decode zero_value c path method (record { headers = []; params = []; body = body })

  unfoldable pub get_nonce : RelayClient → Text → Text → Go NoncePayload
  get_nonce c signer_address signer_type =
      send host.decode_nonce (record { nonce = codes "" }) c get_nonce_endpoint (codes "GET")
        (with_params ((codes "address", signer_address) ∷ (codes "type", signer_type) ∷ []))

  unfoldable pub get_relay_payload : RelayClient → Text → Text → Go RelayPayload
  get_relay_payload c signer_address signer_type =
      send host.decode_relay (record { address = codes ""; nonce = codes "" }) c
        get_relay_payload_endpoint (codes "GET")
        (with_params ((codes "address", signer_address) ∷ (codes "type", signer_type) ∷ []))

  unfoldable pub get_transaction : RelayClient → Text → Go (List RelayerTransaction)
  get_transaction c transaction_id =
      send host.decode_transactions [] c get_transaction_endpoint (codes "GET")
        (with_params ((codes "id", transaction_id) ∷ []))

  unfoldable pub get_transactions : RelayClient → Go (List RelayerTransaction)
  get_transactions c =
      send_authed_request host.decode_transactions [] c (codes "GET") get_transactions_endpoint []

  unfoldable pub get_deployed : RelayClient → Text → Go Bool
  get_deployed c safe_address = do
    resp ←
        send host.decode_deployed (record { deployed = false }) c get_deployed_endpoint
          (codes "GET") (with_params ((codes "address", safe_address) ∷ []))
    pure resp.deployed

  -- the end of each submission: json.Marshal, POST /submit
  unfoldable pub submit : RelayClient → TransactionRequest → Go SubmittedTransaction
  submit c request = do
    payload ← lift (wrap_error (codes "encode request: ") (host.marshal_request request))
    resp ←
        send_authed_request host.decode_submitted
          (record {
            transaction_id = codes "";
            state = codes "";
            hash = codes "";
            transaction_hash = codes "";
          })
          c (codes "POST") submit_transaction_endpoint payload
    pure (submitted_of resp)

  -- a round of PollUntilState that has not ended: sleep, but not behind the last poll
  unfoldable pub between_polls : ℕ → ℤ → Go (Unit {0})
  between_polls zero frequency = pure tt
  between_polls (suc _) frequency = sleep_with_context host frequency

  -- the loop of PollUntilState, with the polls that are left
  unfoldable pub poll_loop : ℕ → RelayClient → Text → List Text → Text → ℤ → Go RelayerTransaction
  poll_loop zero c transaction_id states fail_state frequency = fail (sdk err_transaction_timeout)
  poll_loop (suc rounds) c transaction_id states fail_state frequency = do
    cancelled ← ask host.ctx_done
    emit (checked cancelled)
    lift (error_or_ok cancelled)
    txns ← get_transaction c transaction_id
    settle (verdict_of states fail_state txns) (
        between_polls rounds frequency
        >> poll_loop rounds c transaction_id states fail_state frequency)

  unfoldable pub poll_until_state :
      RelayClient → Text → List Text → Text → ℤ → ℤ → Go RelayerTransaction
  poll_until_state c transaction_id states fail_state max_polls frequency =
      poll_loop (polls_or_default max_polls 10) c transaction_id states fail_state
        (frequency_or_default frequency)

  -- response.go: GetTransaction, Wait and WaitWithOptions
  unfoldable pub response_transaction :
      RelayClient → SubmittedTransaction → Go (List RelayerTransaction)
  response_transaction c r = get_transaction c r.transaction_id

  unfoldable pub wait : RelayClient → SubmittedTransaction → Go RelayerTransaction
  wait c r =
      poll_until_state c r.transaction_id (state_mined ∷ state_confirmed ∷ []) state_failed
        (pos 100) (pos 0)

  unfoldable pub wait_with_options :
      RelayClient → SubmittedTransaction → ℤ → ℤ → Go RelayerTransaction
  wait_with_options c r max_polls frequency =
      poll_until_state c r.transaction_id (state_mined ∷ state_confirmed ∷ []) state_failed
        (pos (polls_or_default max_polls 100)) frequency

module _ (eth : Ethereum) where
  -- derive.go
  unfoldable pub derive_safe_address_on : ℤ → Text → Result Text
  derive_safe_address_on chain_id eoa = elim (get_contract_config chain_id) [
    | err e ↦ err e
    | ok config ↦ derive_safe_address eth eoa config.safe_contracts.safe_factory
  ]

  unfoldable pub derive_proxy_address_on : ℤ → Text → Result Text
  derive_proxy_address_on chain_id eoa = elim (get_contract_config chain_id) [
    | err e ↦ err e
    | ok config ↦ derive_proxy_wallet_address eth eoa config.proxy_contracts.proxy_factory
  ]

module _ (eth : Ethereum) (host : Host) (c : RelayClient) where
  -- c.signer.Address().Hex()
  abbrev pub from_of : Signer → Text
  from_of s = eth.address_hex s.address

  -- getExpectedSafe, of a signer that is there
  abbrev pub expected_safe : Signer → Result Text
  expected_safe s =
      derive_safe_address eth (from_of s) c.contract_config.safe_contracts.safe_factory

  unfoldable pub execute_proxy_transactions :
      Signer → List ProxyTransaction → Text → Go SubmittedTransaction
  execute_proxy_transactions s txns metadata =
      if not (is_proxy_contract_config_valid c.contract_config.proxy_contracts)
      then fail (sdk err_config_unsupported)
      else do
        relay_payload ← get_relay_payload host c (from_of s) transaction_type_proxy
        call_data ← lift (encode_proxy_transaction_data eth txns)
        request ← lift (
            build_proxy_transaction_request eth s
              (record {
                from = from_of s;
                nonce = relay_payload.nonce;
                gas_price = codes "0";
                gas_limit = codes "";
                payload = call_data;
                relay = relay_payload.address;
              })
              c.contract_config.proxy_contracts metadata)
        submit host c request

  -- executeSafeTransactions behind the check of the nonce
  unfoldable pub submit_safe_transactions :
      Signer → List SafeTransaction → Text → Text → Go SubmittedTransaction
  submit_safe_transactions s txns metadata nonce =
      if is_empty nonce then fail (sdk err_invalid_nonce_payload) else do
        request ← lift (
            build_safe_transaction_request eth s
              (record {
                from = from_of s;
                nonce = nonce;
                chain_id = c.chain_id;
                transactions = txns;
              })
              c.contract_config.safe_contracts metadata)
        submit host c request

  unfoldable pub execute_safe_transactions :
      Signer → List SafeTransaction → Text → Go SubmittedTransaction
  execute_safe_transactions s txns metadata =
      if not (is_safe_contract_config_valid c.contract_config.safe_contracts)
      then fail (sdk err_config_unsupported)
      else do
        safe ← lift (expected_safe s)
        deployed ← get_deployed host c safe
        lift (if deployed then ok tt else err (sdk err_safe_not_deployed))
        nonce_payload ← get_nonce host c (from_of s) transaction_type_safe
        submit_safe_transactions s txns metadata nonce_payload.nonce

  -- the switch of Execute on the kind of account
  unfoldable pub execute_with : Signer → List Transaction → Text → Go SubmittedTransaction
  unfolding text_eq
  execute_with s txns metadata =
      if text_eq c.relay_tx_type relayer_tx_safe
      then execute_safe_transactions s (map to_safe_transaction txns) metadata
      else if text_eq c.relay_tx_type relayer_tx_proxy
      then execute_proxy_transactions s (map to_proxy_transaction txns) metadata
      else fail (wrapped [] (sdk err_unsupported_tx_type) (codes ": " ++ c.relay_tx_type))

  execute_signed : Option Signer → List Transaction → Text → Go SubmittedTransaction
  execute_signed none txns metadata = fail (sdk err_signer_unavailable)
  execute_signed (some s) [] metadata = fail (sdk err_no_transactions)
  execute_signed (some s) (tx ∷ txns) metadata = execute_with s (tx ∷ txns) metadata

  unfoldable pub execute : List Transaction → Text → Go SubmittedTransaction
  unfolding execute_signed
  execute txns metadata = execute_signed c.signer txns metadata

  unfoldable pub deploy_safe : Signer → Go SubmittedTransaction
  deploy_safe s =
      if not (is_safe_contract_config_valid c.contract_config.safe_contracts)
      then fail (sdk err_config_unsupported)
      else do
        request ← lift (
            build_safe_create_transaction_request eth s c.contract_config.safe_contracts (record {
              from = from_of s;
              chain_id = c.chain_id;
              payment_token = zero_address;
              payment = codes "0";
              payment_receiver = zero_address;
            }))
        submit host c request

  deploy_signed : Option Signer → Go SubmittedTransaction
  deploy_signed none = fail (sdk err_signer_unavailable)
  deploy_signed (some s) = do
    safe ← lift (expected_safe s)
    deployed ← get_deployed host c safe
    lift (if deployed then err (sdk err_safe_deployed) else ok tt)
    deploy_safe s

  unfoldable pub deploy : Go SubmittedTransaction
  unfolding deploy_signed
  deploy = deploy_signed c.signer
