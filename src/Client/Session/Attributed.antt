-- ===== src/Client/Session/Attributed.antt =====
-- The headers of every request that a program has its client send.
use go_builder_relayer_clien.Prelude.{
  ℕ, zero, suc, All, not, Option, none, some, List, [], ◌∷◌, map, Text, text_eq, is_empty,
  if◌then◌else◌,
}
use go_builder_relayer_clien.Prelude.Int.{ℤ}
use go_builder_relayer_clien.Errors.{sdk, Result, ok, err}
use go_builder_relayer_clien.Errors.Predefined.{
  err_config_unsupported, err_safe_not_deployed, err_safe_deployed, err_invalid_nonce_payload,
}
use go_builder_relayer_clien.Types.{
  Transaction, SafeTransaction, ProxyTransaction, TransactionRequest, RelayerTransaction,
  transaction_type_safe, transaction_type_proxy, relayer_tx_safe, relayer_tx_proxy,
}
use go_builder_relayer_clien.Ethereum.{Ethereum}
use go_builder_relayer_clien.Signer.{Signer}
use go_builder_relayer_clien.Encoder.{encode_proxy_transaction_data}
use go_builder_relayer_clien.Config.{is_safe_contract_config_valid, is_proxy_contract_config_valid}
use go_builder_relayer_clien.Effects.{
  checked, History, Host, Go, ◌>>=◌, ◌>>◌, lift, fail, ask, emit,
}
use go_builder_relayer_clien.Effects.Preserves.{
  Preserves, Preserves-lift, Preserves-bind, Preserves-if, Preserves-ask, Preserves-emit,
}
use go_builder_relayer_clien.Http.Requests.{sleep-Preserves}
use go_builder_relayer_clien.BuilderAuth.Complete.{HasMac}
use go_builder_relayer_clien.Client.{
  RelayClient, Verdict, reached, broke_down, pending, get_transaction, get_nonce, get_deployed,
  get_relay_payload, submit, settle, verdict_of, between_polls, poll_loop, poll_until_state,
  polls_or_default, frequency_or_default, error_or_ok, from_of, expected_safe,
  submit_safe_transactions, execute_safe_transactions, execute_proxy_transactions, execute_with,
  execute_signed, execute, deploy_safe, deploy_signed, deploy, to_safe_transaction,
  to_proxy_transaction,
}
use go_builder_relayer_clien.Client.Attribution.{
  HasAttribution, IsAttributedEvent, get_nonce-Preserves, get_relay_payload-Preserves,
  get_transaction-Preserves, get_transactions-Preserves, get_deployed-Preserves, submit-Preserves,
}
use go_builder_relayer_clien.Client.Session.{
  Call, asks_nonce, asks_relay_payload, asks_transaction, asks_deployed, asks_transactions, deploys,
  executes, polls, perform, session,
}

module _ (host : Host) (mac : HasMac host) (c : RelayClient) where
  between-Preserves :
      (rounds : ℕ) (frequency : ℤ)
      → Preserves IsAttributedEvent (between_polls host rounds frequency)
  unfolding between_polls
  between-Preserves zero frequency = Preserves-lift (ok tt)
  between-Preserves (suc n) frequency = sleep-Preserves host HasAttribution frequency

  settle-Preserves :
      (v : Verdict) (go_on : Go RelayerTransaction)
      → Preserves IsAttributedEvent go_on
      → Preserves IsAttributedEvent (settle v go_on)
  unfolding settle
  settle-Preserves (reached txn) go_on p = Preserves-lift (ok txn)
  settle-Preserves (broke_down hash) go_on p = record { at = λ h q. q }
  settle-Preserves pending go_on p = p

  poll_loop-Preserves :
      (rounds : ℕ) (id : Text) (states : List Text) (fail_state : Text) (frequency : ℤ)
      → Preserves IsAttributedEvent (poll_loop host rounds c id states fail_state frequency)
  unfolding poll_loop
  poll_loop-Preserves zero id states fail_state frequency = record { at = λ h q. q }
  poll_loop-Preserves (suc rounds) id states fail_state frequency =
      let rest =
        between_polls host rounds frequency
        >> poll_loop host rounds c id states fail_state frequency in
      let round =
        λ (txns : List RelayerTransaction). settle (verdict_of states fail_state txns) rest in
      Preserves-bind (ask host.ctx_done) _ (Preserves-ask host.ctx_done) (λ cancelled.
        Preserves-bind (emit (checked cancelled)) _ (Preserves-emit (checked cancelled) tt) (λ _.
          Preserves-bind (lift (error_or_ok cancelled)) _ (Preserves-lift (error_or_ok cancelled))
            (λ _.
              Preserves-bind (get_transaction host c id) round
                (get_transaction-Preserves host mac c id)
                (λ txns. settle-Preserves (verdict_of states fail_state txns) rest (
                  Preserves-bind (between_polls host rounds frequency) _
                    (between-Preserves rounds frequency)
                    (λ _. poll_loop-Preserves rounds id states fail_state frequency))))))

module _ (eth : Ethereum) (host : Host) (mac : HasMac host) (c : RelayClient) where
  submitting :
      (built : Result TransactionRequest)
      → Preserves IsAttributedEvent (lift built >>= λ request. submit host c request)
  submitting built =
      Preserves-bind (lift built) (λ request. submit host c request) (Preserves-lift built)
        (submit-Preserves host mac c)

  submit_safe-Preserves :
      (s : Signer) (txns : List SafeTransaction) (metadata nonce : Text)
      → Preserves IsAttributedEvent (submit_safe_transactions eth host c s txns metadata nonce)
  unfolding submit_safe_transactions
  submit_safe-Preserves s txns metadata nonce =
      Preserves-if (is_empty nonce) (fail (sdk err_invalid_nonce_payload)) _
        (Preserves-lift (err (sdk err_invalid_nonce_payload))) (submitting _)

  execute_safe-Preserves :
      (s : Signer) (txns : List SafeTransaction) (metadata : Text)
      → Preserves IsAttributedEvent (execute_safe_transactions eth host c s txns metadata)
  unfolding execute_safe_transactions
  execute_safe-Preserves s txns metadata =
      Preserves-if (not (is_safe_contract_config_valid c.contract_config.safe_contracts))
        (fail (sdk err_config_unsupported)) _ (Preserves-lift (err (sdk err_config_unsupported)))
        (Preserves-bind (lift (expected_safe eth host c s)) _ (Preserves-lift _) (λ safe.
          Preserves-bind (get_deployed host c safe) _ (get_deployed-Preserves host mac c safe)
            (λ deployed.
              Preserves-bind (lift (if deployed then ok tt else err (sdk err_safe_not_deployed))) _
                (Preserves-lift _)
                (λ _.
                  Preserves-bind (get_nonce host c (from_of eth host c s) transaction_type_safe) _
                    (get_nonce-Preserves host mac c _ _)
                    (λ n. submit_safe-Preserves s txns metadata n.nonce)))))

  execute_proxy-Preserves :
      (s : Signer) (txns : List ProxyTransaction) (metadata : Text)
      → Preserves IsAttributedEvent (execute_proxy_transactions eth host c s txns metadata)
  unfolding execute_proxy_transactions
  execute_proxy-Preserves s txns metadata =
      Preserves-if (not (is_proxy_contract_config_valid c.contract_config.proxy_contracts))
        (fail (sdk err_config_unsupported)) _ (Preserves-lift (err (sdk err_config_unsupported)))
        (Preserves-bind (get_relay_payload host c (from_of eth host c s) transaction_type_proxy) _
          (get_relay_payload-Preserves host mac c _ _)
          (λ relay.
            Preserves-bind (lift (encode_proxy_transaction_data eth txns)) _ (Preserves-lift _)
              (λ call_data. submitting _)))

  execute_with-Preserves :
      (s : Signer) (txns : List Transaction) (metadata : Text)
      → Preserves IsAttributedEvent (execute_with eth host c s txns metadata)
  unfolding execute_with
  execute_with-Preserves s txns metadata =
      Preserves-if (text_eq c.relay_tx_type relayer_tx_safe)
        (execute_safe_transactions eth host c s (map to_safe_transaction txns) metadata) _
        (execute_safe-Preserves s (map to_safe_transaction txns) metadata)
        (Preserves-if (text_eq c.relay_tx_type relayer_tx_proxy)
          (execute_proxy_transactions eth host c s (map to_proxy_transaction txns) metadata) _
          (execute_proxy-Preserves s (map to_proxy_transaction txns) metadata)
          (Preserves-lift (err _)))

  execute_signed-Preserves :
      (o : Option Signer) (txns : List Transaction) (metadata : Text)
      → Preserves IsAttributedEvent (execute_signed eth host c o txns metadata)
  unfolding execute_signed
  execute_signed-Preserves none txns metadata = Preserves-lift (err _)
  execute_signed-Preserves (some s) [] metadata = Preserves-lift (err _)
  execute_signed-Preserves (some s) (tx ∷ txns) metadata =
      execute_with-Preserves s (tx ∷ txns) metadata

  deploy_safe-Preserves : (s : Signer) → Preserves IsAttributedEvent (deploy_safe eth host c s)
  unfolding deploy_safe
  deploy_safe-Preserves s =
      Preserves-if (not (is_safe_contract_config_valid c.contract_config.safe_contracts))
        (fail (sdk err_config_unsupported)) _ (Preserves-lift (err (sdk err_config_unsupported)))
        (submitting _)

  deploy_signed-Preserves :
      (o : Option Signer) → Preserves IsAttributedEvent (deploy_signed eth host c o)
  unfolding deploy_signed
  deploy_signed-Preserves none = Preserves-lift (err _)
  deploy_signed-Preserves (some s) =
      Preserves-bind (lift (expected_safe eth host c s)) _ (Preserves-lift _) (λ safe.
        Preserves-bind (get_deployed host c safe) _ (get_deployed-Preserves host mac c safe)
          (λ deployed.
            Preserves-bind (lift (if deployed then err (sdk err_safe_deployed) else ok tt)) _
              (Preserves-lift _) (λ _. deploy_safe-Preserves s)))

  perform-Preserves :
      (call : Call) (h : History)
      → All IsAttributedEvent h
      → All IsAttributedEvent (perform eth host c call h)
  unfolding perform execute deploy poll_until_state
  perform-Preserves (asks_nonce a t) = (get_nonce-Preserves host mac c a t).at
  perform-Preserves (asks_relay_payload a t) = (get_relay_payload-Preserves host mac c a t).at
  perform-Preserves (asks_transaction id) = (get_transaction-Preserves host mac c id).at
  perform-Preserves (asks_deployed a) = (get_deployed-Preserves host mac c a).at
  perform-Preserves asks_transactions = (get_transactions-Preserves host mac c).at
  perform-Preserves deploys = (deploy_signed-Preserves c.signer).at
  perform-Preserves (executes txns metadata) = (execute_signed-Preserves c.signer txns metadata).at
  perform-Preserves (polls id states fail_state max_polls frequency) =
      (poll_loop-Preserves host mac c (polls_or_default max_polls 10) id states fail_state
        (frequency_or_default frequency)).at

  -- Whatever operations of one client that ask the relayer a program calls, in any order and with any
  -- results, each request to the relayer carries all four attribution headers, none of them empty, if
  -- each request before did. The MAC is taken never to be empty.
  pub session-attributed :
      (calls : List Call) (h : History)
      → All IsAttributedEvent h
      → All IsAttributedEvent (session eth host c calls h)
  unfolding session
  session-attributed [] h p = p
  session-attributed (call ∷ calls) h p =
      session-attributed calls (perform eth host c call h) (perform-Preserves call h p)
