-- ===== src/Client/Guards/Execution.antt =====
-- Execute: what stands before a submission, for both kinds of account.
use go_builder_relayer_clien.Prelude.{
  ◌≡◌, ◌≢◌, refl, not, Option, none, some, List, [], ◌∷◌, map, Text, codes, text_eq, text_eq_iff,
  Bool-cases, inl, inr,
}
use go_builder_relayer_clien.Errors.{ok}
use go_builder_relayer_clien.Types.{
  RelayPayload, Transaction, ProxyTransaction, ProxyTransactionArgs, TransactionRequest,
  transaction_type_proxy, relayer_tx_safe, relayer_tx_proxy,
}
use go_builder_relayer_clien.Ethereum.{Ethereum}
use go_builder_relayer_clien.Signer.{Signer}
use go_builder_relayer_clien.Config.{is_proxy_contract_config_valid}
use go_builder_relayer_clien.Encoder.{encode_proxy_transaction_data}
use go_builder_relayer_clien.Builder.{build_proxy_transaction_request}
use go_builder_relayer_clien.Builder.Signed.{
  ProxySigned, struct_of, args_struct, build_proxy-ProxySigned, build_proxy_struct,
}
use go_builder_relayer_clien.Effects.{History, Host, ◌>>=◌, lift, >>=-returns}
use go_builder_relayer_clien.Client.{
  RelayClient, SubmittedTransaction, get_relay_payload, submit, from_of, execute_proxy_transactions,
  execute_with, execute_signed, execute, to_safe_transaction, to_proxy_transaction,
}
use go_builder_relayer_clien.Client.Guards.{
  SafeSubmitted, execute_safe-SafeSubmitted, whole, failed,
}

module _ (eth : Ethereum) (host : Host) (c : RelayClient) where
  -- what is built for a relay and its nonce, of the calls
  abbrev pub proxy_args : Signer → RelayPayload → Text → ProxyTransactionArgs
  proxy_args s relay call_data = record {
    from = from_of eth host c s;
    nonce = relay.nonce;
    gas_price = codes "0";
    gas_limit = codes "";
    payload = call_data;
    relay = relay.address;
  }

  -- The relayer named a relay and a nonce, and the request that was submitted carries the signature
  -- of the struct of the calls, the nonce and the relay.
  pub record ProxySubmitted (s : Signer) (txns : List ProxyTransaction) (h h' : History)
      (r : SubmittedTransaction) : Type 0 where
    pub relay : RelayPayload
    pub asked : History
    pub call_data : Text
    pub request : TransactionRequest
    pub answered :
        get_relay_payload host c (from_of eth host c s) transaction_type_proxy h ≡ (ok relay, asked)
    pub encoded : encode_proxy_transaction_data eth txns ≡ ok call_data
    pub signed : ProxySigned eth s request
    pub struct :
        struct_of request
        ≡ args_struct eth s (proxy_args s relay call_data) c.contract_config.proxy_contracts
    pub sent : submit host c request asked ≡ (ok r, h')

  -- a submission, by the kind of the client's account
  pub data Executed (txns : List Transaction) (h h' : History) (r : SubmittedTransaction)
      : Type 0 where
    safe_account :
        (s : Signer)
        → c.signer ≡ some s
        → txns ≢ []
        → c.relay_tx_type ≡ relayer_tx_safe
        → SafeSubmitted eth host c s (map to_safe_transaction txns) h h' r
        → Executed txns h h' r
    proxy_account :
        (s : Signer)
        → c.signer ≡ some s
        → txns ≢ []
        → c.relay_tx_type ≡ relayer_tx_proxy
        → ProxySubmitted s (map to_proxy_transaction txns) h h' r
        → Executed txns h h' r

  execute_proxy-ProxySubmitted :
      (s : Signer) (txns : List ProxyTransaction) (metadata : Text) (h h' : History)
      (r : SubmittedTransaction)
      → execute_proxy_transactions eth host c s txns metadata h ≡ (ok r, h')
      → ProxySubmitted s txns h h' r
  unfolding execute_proxy_transactions
  execute_proxy-ProxySubmitted s txns metadata h h' r p =
      elim (Bool-cases (not (is_proxy_contract_config_valid c.contract_config.proxy_contracts))) [
        | inl bad ↦ absurd (failed (rw bad at p))
        | inr good ↦
            let config = c.contract_config.proxy_contracts in
            let fetch = get_relay_payload host c (from_of eth host c s) transaction_type_proxy in
            let building = λ (relay : RelayPayload) (call_data : Text).
              build_proxy_transaction_request eth s (proxy_args s relay call_data) config
                metadata in
            let sending = λ (request : TransactionRequest). submit host c request in
            let encoding = λ (relay : RelayPayload).
              (lift (encode_proxy_transaction_data eth txns) >>= λ call_data.
              (lift (building relay call_data) >>= sending)) in
            let (relay, a, p1) = >>=-returns fetch encoding h (rw good at p) in
            let asked = (fetch h).1 in
            let (call_data, e, p2) =
              >>=-returns (lift (encode_proxy_transaction_data eth txns))
                (λ (d : Text). lift (building relay d) >>= sending) asked p1 in
            let (request, b, sent) =
              >>=-returns (lift (building relay call_data)) sending asked p2 in
            record {
              relay = relay;
              asked = asked;
              call_data = call_data;
              request = request;
              answered = whole fetch h a;
              encoded = e;
              signed =
                  build_proxy-ProxySigned eth s (proxy_args s relay call_data) config metadata
                    request b;
              struct =
                  build_proxy_struct eth s (proxy_args s relay call_data) config metadata request b;
              sent = sent;
            }
      ]

  execute_with-Executed :
      (s : Signer) (txns : List Transaction) (metadata : Text) (h h' : History)
      (r : SubmittedTransaction)
      → c.signer ≡ some s
      → txns ≢ []
      → execute_with eth host c s txns metadata h ≡ (ok r, h')
      → Executed txns h h' r
  unfolding execute_with
  execute_with-Executed s txns metadata h h' r there given p =
      elim (Bool-cases (text_eq c.relay_tx_type relayer_tx_safe)) [
        | inl safe ↦
            safe_account s there given ((text_eq_iff c.relay_tx_type relayer_tx_safe).0 safe) (
              execute_safe-SafeSubmitted eth host c s (map to_safe_transaction txns) metadata h h' r
                (rw safe at p))
        | inr other ↦ elim (Bool-cases (text_eq c.relay_tx_type relayer_tx_proxy)) [
          | inl proxy ↦
              proxy_account s there given ((text_eq_iff c.relay_tx_type relayer_tx_proxy).0 proxy) (
                execute_proxy-ProxySubmitted s (map to_proxy_transaction txns) metadata h h' r
                  (rw (other, proxy) at p))
          | inr neither ↦ absurd (failed (rw (other, neither) at p))
        ]
      ]

  execute_signed-Executed :
      (o : Option Signer) (txns : List Transaction) (metadata : Text) (h h' : History)
      (r : SubmittedTransaction)
      → c.signer ≡ o
      → execute_signed eth host c o txns metadata h ≡ (ok r, h')
      → Executed txns h h' r
  unfolding execute_signed
  execute_signed-Executed none txns metadata h h' r there p = absurd (failed p)
  execute_signed-Executed (some s) [] metadata h h' r there p = absurd (failed p)
  execute_signed-Executed (some s) (tx ∷ txns) metadata h h' r there p =
      execute_with-Executed s (tx ∷ txns) metadata h h' r there (λ e. cc) p

  -- An execution that returns had a signer and a transaction at least, and followed the way of the
  -- account: a Safe that is deployed, with a nonce, or a proxy with its relay and nonce. The request
  -- that it submitted carries the signature of just these transactions.
  pub execute-Executed :
      (txns : List Transaction) (metadata : Text) (h h' : History) (r : SubmittedTransaction)
      → execute eth host c txns metadata h ≡ (ok r, h')
      → Executed txns h h' r
  unfolding execute
  execute-Executed txns metadata h h' r p =
      execute_signed-Executed c.signer txns metadata h h' r refl p
