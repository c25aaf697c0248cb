-- ===== src/Client/Guards.antt =====
-- Execute: what stands before the submission of a Safe transaction.
pub mod Deployment
pub mod Execution
use go_builder_relayer_clien.Prelude.{
  ◌≡◌, ◌≢◌, refl, ap, ◌∙◌, Bool, true, false, not, List, [], ◌∷◌, Text, is_empty, Bool-cases, inl,
  inr, if◌then◌else◌,
}
use go_builder_relayer_clien.Errors.{Error, sdk, Result, ok, err}
use go_builder_relayer_clien.Errors.Predefined.{err_safe_not_deployed}
use go_builder_relayer_clien.Types.{
  NoncePayload, SafeTransaction, SafeTransactionArgs, TransactionRequest, transaction_type_safe,
}
use go_builder_relayer_clien.Ethereum.{Ethereum}
use go_builder_relayer_clien.Signer.{Signer}
use go_builder_relayer_clien.Config.{is_safe_contract_config_valid}
use go_builder_relayer_clien.Builder.{build_safe_transaction_request}
use go_builder_relayer_clien.Builder.Signed.{SafeSigned, build_safe-SafeSigned}
use go_builder_relayer_clien.Effects.{History, Host, Go, ◌>>=◌, ◌>>◌, lift, fail, >>=-returns}
use go_builder_relayer_clien.Client.{
  RelayClient, SubmittedTransaction, get_deployed, get_nonce, submit, from_of, expected_safe,
  submit_safe_transactions, execute_safe_transactions,
}
use go_builder_relayer_clien.Prelude.{codes}

-- the two halves of a run
whole : {A : Type 0} (m : Go A) (h : History) {a : A} → (m h).0 ≡ ok a → m h ≡ (ok a, (m h).1)
whole {A} m h p = ap (λ (r : Result A). (r, (m h).1)) p

failed : {A : Type 0} {e : Error} {h h' : History} {a : A} → fail {A = A} e h ≡ (ok a, h') → ⊥
failed {A} p = cc (ap (λ (x : Result A × History). x.0) p)

filled : (s : Text) → is_empty s ≡ false → s ≢ []
filled [] p = cc
filled (c ∷ s) p = cc

guarded : (b : Bool) (e : Error) {u : Unit {0}} → (if b then ok tt else err e) ≡ ok u → b ≡ true
guarded true e p = refl
guarded false e p = cc

module _ (eth : Ethereum) (host : Host) (c : RelayClient) (s : Signer) where
  abbrev pub safe_args : List SafeTransaction → Text → SafeTransactionArgs
  safe_args txns nonce = record {
    from = from_of eth host c s;
    nonce = nonce;
    chain_id = c.chain_id;
    transactions = txns;
  }

  -- The Safe of the signer was deployed, the relayer gave a nonce that is not empty, and the request
  -- that was submitted carries the signature of its own transaction.
  pub record SafeSubmitted (txns : List SafeTransaction) (h h' : History) (r : SubmittedTransaction)
      : Type 0 where
    pub safe : Text
    pub asked : History
    pub nonce : NoncePayload
    pub fetched : History
    pub request : TransactionRequest
    pub derived : expected_safe eth host c s ≡ ok safe
    pub deployed : get_deployed host c safe h ≡ (ok true, asked)
    pub answered :
        get_nonce host c (from_of eth host c s) transaction_type_safe asked ≡ (ok nonce, fetched)
    pub given : nonce.nonce ≢ []
    pub signed :
        SafeSigned eth s (safe_args txns nonce.nonce) c.contract_config.safe_contracts request
    pub sent : submit host c request fetched ≡ (ok r, h')

  submit_safe-sent :
      (txns : List SafeTransaction) (metadata nonce : Text) (h h' : History)
      (r : SubmittedTransaction)
      → submit_safe_transactions eth host c s txns metadata nonce h ≡ (ok r, h')
      → (nonce ≢ [])
        × (request : TransactionRequest) × SafeSigned eth s
            (safe_args txns nonce)
            c.contract_config.safe_contracts
            request
        × (submit host c request h ≡ (ok r, h'))
  unfolding submit_safe_transactions
  submit_safe-sent txns metadata nonce h h' r p = elim (Bool-cases (is_empty nonce)) [
    | inl bad ↦ absurd (failed (rw bad at p))
    | inr good ↦
        let built =
          build_safe_transaction_request eth s (safe_args txns nonce)
            c.contract_config.safe_contracts metadata in
        let (request, q, sent) =
          >>=-returns (lift built) (λ (request : TransactionRequest). submit host c request) h
            (rw good at p) in
        (
          filled nonce good,
          request,
          build_safe-SafeSigned eth s (safe_args txns nonce) c.contract_config.safe_contracts
              metadata request q,
          sent,
        )
  ]

  -- A Safe execution that returns found the Safe of the signer deployed, got a nonce that is not
  -- empty, and submitted a request that carries the signature of the transaction in it.
  pub execute_safe-SafeSubmitted :
      (txns : List SafeTransaction) (metadata : Text) (h h' : History) (r : SubmittedTransaction)
      → execute_safe_transactions eth host c s txns metadata h ≡ (ok r, h')
      → SafeSubmitted txns h h' r
  unfolding execute_safe_transactions
  execute_safe-SafeSubmitted txns metadata h h' r p =
      elim (Bool-cases (not (is_safe_contract_config_valid c.contract_config.safe_contracts))) [
        | inl bad ↦ absurd (failed (rw bad at p))
        | inr good ↦
            let submitting =
              λ (n : NoncePayload). submit_safe_transactions eth host c s txns metadata n.nonce in
            let fetch = get_nonce host c (from_of eth host c s) transaction_type_safe in
            let check = λ (deployed : Bool).
              (lift (if deployed then ok tt else err (sdk err_safe_not_deployed))
                >> (fetch >>= submitting)) in
            let (safe, derived, p1) =
              >>=-returns (lift (expected_safe eth host c s))
                (λ (safe : Text). get_deployed host c safe >>= check) h (rw good at p) in
            let (deployed, d, p2) = >>=-returns (get_deployed host c safe) check h p1 in
            let asked = (get_deployed host c safe h).1 in
            let (_, is, p3) =
              >>=-returns (lift (if deployed then ok tt else err (sdk err_safe_not_deployed)))
                (λ (_ : Unit {0}). fetch >>= submitting) asked p2 in
            let (nonce, n, p4) = >>=-returns fetch submitting asked p3 in
            let (given, request, signed, sent) =
              submit_safe-sent txns metadata nonce.nonce (fetch asked).1 h' r p4 in
            record {
              safe = safe;
              asked = asked;
              nonce = nonce;
              fetched = (fetch asked).1;
              request = request;
              derived = derived;
              deployed = whole (get_deployed host c safe) h (d ∙ ap ok (guarded deployed _ is));
              answered = whole fetch asked n;
              given = given;
              signed = signed;
              sent = sent;
            }
      ]
