-- ===== src/Client/Guards/Deployment.antt =====
-- Deploy: what stands before the creation of a Safe.
use go_builder_relayer_clien.Prelude.{
  ◌≡◌, refl, ap, ◌∙◌, Bool, true, false, not, Text, Bool-cases, inl, inr, if◌then◌else◌,
}
use go_builder_relayer_clien.Errors.{Error, sdk, ok, err}
use go_builder_relayer_clien.Types.{TransactionRequest}
use go_builder_relayer_clien.Ethereum.{Ethereum}
use go_builder_relayer_clien.Signer.{Signer}
use go_builder_relayer_clien.Config.{is_safe_contract_config_valid}
use go_builder_relayer_clien.Builder.Signed.{build_safe_create_lem}
use go_builder_relayer_clien.Effects.{History, Host, ◌>>=◌, ◌>>◌, lift, >>=-returns}
use go_builder_relayer_clien.Client.{
  RelayClient, SubmittedTransaction, get_deployed, submit, from_of, expected_safe,
}
use go_builder_relayer_clien.Prelude.{Option, none, some, codes}
use go_builder_relayer_clien.Errors.Predefined.{err_safe_deployed}
use go_builder_relayer_clien.Types.{
  SafeCreateTransactionArgs, transaction_type_safe_create, zero_address,
}
use go_builder_relayer_clien.Builder.{build_safe_create_transaction_request, derive_safe_address}
use go_builder_relayer_clien.Client.{deploy_safe, deploy, deploy_signed}
use go_builder_relayer_clien.Client.Guards.{whole, failed}

module _ (eth : Ethereum) (host : Host) (c : RelayClient) where
  -- There is a signer, its Safe was not deployed, and a request to create it was submitted.
  pub record DeploySubmitted (h h' : History) (r : SubmittedTransaction) : Type 0 where
    pub signer : Signer
    pub safe : Text
    pub asked : History
    pub request : TransactionRequest
    pub there : c.signer ≡ some signer
    pub derived : expected_safe eth host c signer ≡ ok safe
    pub missing : get_deployed host c safe h ≡ (ok false, asked)
    pub created : request.kind ≡ transaction_type_safe_create
    pub wallet :
        derive_safe_address eth request.from c.contract_config.safe_contracts.safe_factory
        ≡ ok request.proxy_wallet
    pub sent : submit host c request asked ≡ (ok r, h')

  refused : (b : Bool) (e : Error) {u : Unit {0}} → (if b then err e else ok tt) ≡ ok u → b ≡ false
  refused true e p = cc
  refused false e p = refl

  deploy_safe-sent :
      (s : Signer) (h h' : History) (r : SubmittedTransaction)
      → deploy_safe eth host c s h ≡ (ok r, h')
      → (request : TransactionRequest) × (request.kind ≡ transaction_type_safe_create)
        × (derive_safe_address eth request.from c.contract_config.safe_contracts.safe_factory
            ≡ ok request.proxy_wallet)
        × (submit host c request h ≡ (ok r, h'))
  unfolding deploy_safe
  deploy_safe-sent s h h' r p =
      elim (Bool-cases (not (is_safe_contract_config_valid c.contract_config.safe_contracts))) [
        | inl bad ↦ absurd (failed (rw bad at p))
        | inr good ↦
            let args : SafeCreateTransactionArgs = record {
              from = from_of eth host c s;
              chain_id = c.chain_id;
              payment_token = zero_address;
              payment = codes "0";
              payment_receiver = zero_address;
            } in
            let built =
              build_safe_create_transaction_request eth s c.contract_config.safe_contracts args in
            let (request, q, sent) =
              >>=-returns (lift built) (λ (request : TransactionRequest). submit host c request) h
                (rw good at p) in
            let (kind, wallet) =
              build_safe_create_lem eth s args c.contract_config.safe_contracts request q in
            (request, kind, wallet, sent)
      ]

  deploy_signed-DeploySubmitted :
      (o : Option Signer) (h h' : History) (r : SubmittedTransaction)
      → c.signer ≡ o
      → deploy_signed eth host c o h ≡ (ok r, h')
      → DeploySubmitted h h' r
  unfolding deploy_signed
  deploy_signed-DeploySubmitted none h h' r e p = absurd (failed p)
  deploy_signed-DeploySubmitted (some s) h h' r e p =
      let check = λ (deployed : Bool).
        (lift (if deployed then err (sdk err_safe_deployed) else ok tt)
          >> deploy_safe eth host c s) in
      let (safe, derived, p1) =
        >>=-returns (lift (expected_safe eth host c s))
          (λ (safe : Text). get_deployed host c safe >>= check) h p in
      let (deployed, d, p2) = >>=-returns (get_deployed host c safe) check h p1 in
      let asked = (get_deployed host c safe h).1 in
      let (_, is, p3) =
        >>=-returns (lift (if deployed then err (sdk err_safe_deployed) else ok tt))
          (λ (_ : Unit {0}). deploy_safe eth host c s) asked p2 in
      let (request, kind, wallet, sent) = deploy_safe-sent s asked h' r p3 in
      record {
        signer = s;
        safe = safe;
        asked = asked;
        request = request;
        there = e;
        derived = derived;
        missing = whole (get_deployed host c safe) h (d ∙ ap ok (refused deployed _ is));
        created = kind;
        wallet = wallet;
        sent = sent;
      }

  -- A deployment that returns had a signer, found that its Safe was not deployed, and submitted a
  -- request of the kind that creates the Safe of its sender.
  pub deploy-DeploySubmitted :
      (h h' : History) (r : SubmittedTransaction)
      → deploy eth host c h ≡ (ok r, h')
      → DeploySubmitted h h' r
  unfolding deploy
  deploy-DeploySubmitted h h' r p = deploy_signed-DeploySubmitted c.signer h h' r refl p
