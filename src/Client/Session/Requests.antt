-- ===== src/Client/Session/Requests.antt =====
-- How many requests a program has its client send.
use go_builder_relayer_clien.Prelude.{
  ℕ, ◌≡◌, arith, not, Option, none, some, List, [], ◌∷◌, map, Text, codes, text_eq, is_empty,
  if◌then◌else◌,
}
use go_builder_relayer_clien.Errors.{sdk, wrap_error, Result, ok, err}
use go_builder_relayer_clien.Errors.Predefined.{
  err_config_unsupported, err_safe_not_deployed, err_safe_deployed, err_invalid_nonce_payload,
}
use go_builder_relayer_clien.Types.{
  Transaction, SafeTransaction, ProxyTransaction, TransactionRequest, transaction_type_safe,
  transaction_type_proxy, relayer_tx_safe, relayer_tx_proxy,
}
use go_builder_relayer_clien.Ethereum.{Ethereum}
use go_builder_relayer_clien.Signer.{Signer}
use go_builder_relayer_clien.Encoder.{encode_proxy_transaction_data}
use go_builder_relayer_clien.Config.{is_safe_contract_config_valid, is_proxy_contract_config_valid}
use go_builder_relayer_clien.Effects.{History, Host, Go, ◌>>=◌, lift, fail}
use go_builder_relayer_clien.Client.{
  RelayClient, get_nonce, get_deployed, get_relay_payload, submit, polls_or_default, from_of,
  expected_safe, submit_safe_transactions, execute_safe_transactions, execute_proxy_transactions,
  execute_with, execute_signed, execute, deploy_safe, deploy_signed, deploy, to_safe_transaction,
  to_proxy_transaction,
}
use go_builder_relayer_clien.Client.Session.{
  Call, asks_nonce, asks_relay_payload, asks_transaction, asks_deployed, asks_transactions, deploys,
  executes, polls, perform, session,
}
use go_builder_relayer_clien.Prelude.{◌+◌, ◌*◌, ◌≤◌}
use go_builder_relayer_clien.Http.Attempts.{exchanges}
use go_builder_relayer_clien.Client.Budget.{
  Sends, Sends-lift, Sends-bind, Sends-then, Sends-if, Sends-eq, Sends-fail, Sends-send,
  Sends-get_transaction, tries, poll_until_state-bound,
}
use go_builder_relayer_clien.Client.{get_transactions, send, send_authed_request}

-- the queries of one call at most
abbrev pub queries : Call → ℕ
queries (asks_nonce a t) = 1
queries (asks_relay_payload a t) = 1
queries (asks_transaction id) = 1
queries (asks_deployed a) = 1
queries asks_transactions = 1
queries deploys = 2
queries (executes txns metadata) = 3
queries (polls id states fail_state max_polls frequency) = polls_or_default max_polls 10

abbrev pub total_queries : List Call → ℕ
total_queries [] = 0
total_queries (call ∷ calls) = queries call + total_queries calls

Sends-le : {A : Type 0} (n k : ℕ) (m : Go A) → n ≤ k → Sends n m → Sends k m
Sends-le n k m e p = record { at = λ h. omega (arith, e, p.at h) }

module _ (host : Host) (c : RelayClient) where
  Sends-get_nonce : (a t : Text) → Sends (tries host c) (get_nonce host c a t)
  unfolding get_nonce
  Sends-get_nonce a t = Sends-send host c _ _ _ _ _

  Sends-get_relay_payload : (a t : Text) → Sends (tries host c) (get_relay_payload host c a t)
  unfolding get_relay_payload
  Sends-get_relay_payload a t = Sends-send host c _ _ _ _ _

  Sends-get_transactions : Sends (tries host c) (get_transactions host c)
  unfolding get_transactions send_authed_request
  Sends-get_transactions = Sends-send host c _ _ _ _ _

  Sends-get_deployed : (a : Text) → Sends (tries host c) (get_deployed host c a)
  unfolding get_deployed
  Sends-get_deployed a =
      Sends-eq (tries host c + 0) (tries host c) (get_deployed host c a) (omega arith) (
        Sends-bind (tries host c) 0 (send host host.decode_deployed _ c _ _ _) _
          (Sends-send host c _ _ _ _ _) (λ resp. Sends-lift (ok resp.deployed)))

  Sends-submit : (request : TransactionRequest) → Sends (tries host c) (submit host c request)
  unfolding submit send_authed_request
  Sends-submit request =
      Sends-then (tries host c)
        (lift (wrap_error (codes "encode request: ") (host.marshal_request request))) _
        (Sends-lift _)
        (λ payload. Sends-eq (tries host c + 0) (tries host c) _ (omega arith) (
          Sends-bind (tries host c) 0 (send host host.decode_submitted _ c _ _ _) _
            (Sends-send host c _ _ _ _ _) (λ resp. Sends-lift _)))

module _ (eth : Ethereum) (host : Host) (c : RelayClient) where
  -- what is built is submitted
  Sends-submitting :
      (built : Result TransactionRequest)
      → Sends (tries host c) (lift built >>= λ request. submit host c request)
  Sends-submitting built =
      Sends-then (tries host c) (lift built) (λ request. submit host c request) (Sends-lift built)
        (Sends-submit host c)

  Sends-submit_safe :
      (s : Signer) (txns : List SafeTransaction) (metadata nonce : Text)
      → Sends (tries host c) (submit_safe_transactions eth host c s txns metadata nonce)
  unfolding submit_safe_transactions
  Sends-submit_safe s txns metadata nonce =
      Sends-if (tries host c) (is_empty nonce) (fail (sdk err_invalid_nonce_payload)) _
        (Sends-fail (tries host c) (sdk err_invalid_nonce_payload)) (Sends-submitting _)

  Sends-execute_safe :
      (s : Signer) (txns : List SafeTransaction) (metadata : Text)
      → Sends
          (tries host c + (tries host c + tries host c))
          (execute_safe_transactions eth host c s txns metadata)
  unfolding execute_safe_transactions
  Sends-execute_safe s txns metadata =
      let r = tries host c in
      Sends-if (r + (r + r)) (not (is_safe_contract_config_valid c.contract_config.safe_contracts))
        (fail (sdk err_config_unsupported)) _
        (Sends-fail (r + (r + r)) (sdk err_config_unsupported))
        (Sends-then (r + (r + r)) (lift (expected_safe eth host c s)) _ (Sends-lift _) (λ safe.
          Sends-bind r (r + r) (get_deployed host c safe) _ (Sends-get_deployed host c safe)
            (λ deployed.
              Sends-then (r + r)
                (lift (if deployed then ok tt else err (sdk err_safe_not_deployed))) _
                (Sends-lift _)
                (λ _.
                  Sends-bind r r (get_nonce host c (from_of eth host c s) transaction_type_safe) _
                    (Sends-get_nonce host c _ _)
                    (λ n. Sends-submit_safe s txns metadata n.nonce)))))

  Sends-execute_proxy :
      (s : Signer) (txns : List ProxyTransaction) (metadata : Text)
      → Sends (tries host c + tries host c) (execute_proxy_transactions eth host c s txns metadata)
  unfolding execute_proxy_transactions
  Sends-execute_proxy s txns metadata =
      let r = tries host c in
      Sends-if (r + r) (not (is_proxy_contract_config_valid c.contract_config.proxy_contracts))
        (fail (sdk err_config_unsupported)) _ (Sends-fail (r + r) (sdk err_config_unsupported))
        (Sends-bind r r (get_relay_payload host c (from_of eth host c s) transaction_type_proxy) _
          (Sends-get_relay_payload host c _ _)
          (λ relay.
            Sends-then r (lift (encode_proxy_transaction_data eth txns)) _ (Sends-lift _)
              (λ call_data. Sends-submitting _)))

  Sends-execute_signed :
      (o : Option Signer) (txns : List Transaction) (metadata : Text)
      → Sends (3 * tries host c) (execute_signed eth host c o txns metadata)
  unfolding execute_signed execute_with
  Sends-execute_signed none txns metadata = Sends-fail (3 * tries host c) _
  Sends-execute_signed (some s) [] metadata = Sends-fail (3 * tries host c) _
  Sends-execute_signed (some s) (tx ∷ txns) metadata =
      let r = tries host c in
      Sends-if (3 * r) (text_eq c.relay_tx_type relayer_tx_safe)
        (execute_safe_transactions eth host c s (map to_safe_transaction (tx ∷ txns)) metadata) _
        (Sends-le (r + (r + r)) (3 * r) _ (omega arith)
          (Sends-execute_safe s (map to_safe_transaction (tx ∷ txns)) metadata))
        (Sends-if (3 * r) (text_eq c.relay_tx_type relayer_tx_proxy)
          (execute_proxy_transactions eth host c s (map to_proxy_transaction (tx ∷ txns)) metadata)
          _
          (Sends-le (r + r) (3 * r) _ (omega arith)
            (Sends-execute_proxy s (map to_proxy_transaction (tx ∷ txns)) metadata))
          (Sends-fail (3 * r) _))

  Sends-deploy_safe : (s : Signer) → Sends (tries host c) (deploy_safe eth host c s)
  unfolding deploy_safe
  Sends-deploy_safe s =
      Sends-if (tries host c) (not (is_safe_contract_config_valid c.contract_config.safe_contracts))
        (fail (sdk err_config_unsupported)) _
        (Sends-fail (tries host c) (sdk err_config_unsupported)) (Sends-submitting _)

  Sends-deploy_signed : (o : Option Signer) → Sends (2 * tries host c) (deploy_signed eth host c o)
  unfolding deploy_signed
  Sends-deploy_signed none = Sends-fail (2 * tries host c) _
  Sends-deploy_signed (some s) =
      let r = tries host c in
      Sends-le (r + r) (2 * r) (deploy_signed eth host c (some s)) (omega arith) (
        Sends-then (r + r) (lift (expected_safe eth host c s)) _ (Sends-lift _) (λ safe.
          Sends-bind r r (get_deployed host c safe) _ (Sends-get_deployed host c safe) (λ deployed.
            Sends-then r (lift (if deployed then err (sdk err_safe_deployed) else ok tt)) _
              (Sends-lift _) (λ _. Sends-deploy_safe s))))

  one_query : {A : Type 0} (m : Go A) → Sends (tries host c) m → Sends (1 * tries host c) m
  one_query m p = Sends-le (tries host c) (1 * tries host c) m (omega arith) p

  perform-bound :
      (call : Call) (h : History)
      → exchanges (perform eth host c call h) ≤ exchanges h + queries call * tries host c
  unfolding perform execute deploy
  perform-bound (asks_nonce a t) = (one_query _ (Sends-get_nonce host c a t)).at
  perform-bound (asks_relay_payload a t) = (one_query _ (Sends-get_relay_payload host c a t)).at
  perform-bound (asks_transaction id) = (one_query _ (Sends-get_transaction host c id)).at
  perform-bound (asks_deployed a) = (one_query _ (Sends-get_deployed host c a)).at
  perform-bound asks_transactions = (one_query _ (Sends-get_transactions host c)).at
  perform-bound deploys = (Sends-deploy_signed c.signer).at
  perform-bound (executes txns metadata) = (Sends-execute_signed c.signer txns metadata).at
  perform-bound (polls id states fail_state max_polls frequency) =
      poll_until_state-bound host c id states fail_state max_polls frequency

  -- Whatever operations of one client that ask the relayer a program calls, they send at most maxRetries + 1 requests to the
  -- relayer for each query: one query for a read, two for a deployment, three for an execution, and
  -- one for each poll.
  pub session-bound :
      (calls : List Call) (h : History)
      → exchanges (session eth host c calls h) ≤ exchanges h + total_queries calls * tries host c
  unfolding session
  session-bound [] h = omega arith
  session-bound (call ∷ calls) h =
      let step = perform-bound call h in
      let rest = session-bound calls (perform eth host c call h) in
      let total : total_queries (call ∷ calls) * tries host c
          ≡ queries call * tries host c + total_queries calls * tries host c =
        grind arith in
      omega (arith, step, rest, total)
