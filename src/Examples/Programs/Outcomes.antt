-- ===== src/Examples/Programs/Outcomes.antt =====
-- What the programs have reached when they return.
use go_builder_relayer_clien.Prelude.{
  ◌≡◌, refl, ap, sym, subst, ◌⊎◌, inl, inr, Bool, true, false, Option, none, some, List, [], ◌∷◌,
  Text, text_eq, text_eq_iff, Bool-cases, codes,
}
use go_builder_relayer_clien.Errors.{Result, ok, ok-injective}
use go_builder_relayer_clien.Types.{RelayerTransaction, state_mined, state_confirmed, state_failed}
use go_builder_relayer_clien.Prelude.Int.{pos}
use go_builder_relayer_clien.Ethereum.{Ethereum}
use go_builder_relayer_clien.Signer.{Curve}
use go_builder_relayer_clien.Effects.{History, Host, Go, ◌>>=◌, lift, pure, >>=-returns}
use go_builder_relayer_clien.Client.{
  RelayClient, SubmittedTransaction, has_state, get_deployed, deploy, execute, wait,
  get_transactions,
}
use go_builder_relayer_clien.Client.Polling.{poll_until_state-Reached}
use go_builder_relayer_clien.Client.Guards.Deployment.{DeploySubmitted, deploy-DeploySubmitted}
use go_builder_relayer_clien.Client.Guards.Execution.{Executed, execute-Executed}
use go_builder_relayer_clien.Examples.Environment.{Getenv}
use go_builder_relayer_clien.Examples.Setup.{usdc, end_to_end_setup, basic_setup}
use go_builder_relayer_clien.Examples.Programs.{
  Settled, execute_and_wait, ensure_deployed, end_to_end_run, end_to_end, basic,
}

-- the states that Wait waits for
abbrev pub IsFinal : RelayerTransaction → Type 0
IsFinal txn = (txn.state ≡ state_mined) ⊎ (txn.state ≡ state_confirmed)

one_of_two : (a b s : Text) → has_state (a ∷ b ∷ []) s ≡ true → (s ≡ a) ⊎ (s ≡ b)
unfolding has_state
one_of_two a b s p = elim (Bool-cases (text_eq a s)) [
  | inl first ↦ inl (sym ((text_eq_iff a s).0 first))
  | inr other ↦ elim (Bool-cases (text_eq b s)) [
    | inl second ↦ inr (sym ((text_eq_iff b s).0 second))
    | inr neither ↦ cc (rw (other, neither) at p)
  ]
]

wait-IsFinal :
    (host : Host) (c : RelayClient) (r : SubmittedTransaction) (h h' : History)
    (txn : RelayerTransaction)
    → wait host c r h ≡ (ok txn, h')
    → IsFinal txn
unfolding wait
wait-IsFinal host c r h h' txn p =
    let states = state_mined ∷ state_confirmed ∷ [] in
    let reached =
      poll_until_state-Reached host c r.transaction_id states state_failed (pos 100) (pos 0) h h'
        txn p in
    one_of_two state_mined state_confirmed txn.state reached.good

module _ (eth : Ethereum) (host : Host) where
  -- A request to execute the transaction was submitted, and the transaction is final.
  pub record Confirmed (client : RelayClient) (h h' : History) (txn : RelayerTransaction)
      : Type 0 where
    pub response : SubmittedTransaction
    pub submitted : History
    pub executed : Executed eth host client (usdc ∷ []) h submitted response
    pub waited : wait host client response submitted ≡ (ok txn, h')
    pub final : IsFinal txn

  execute_and_wait-Confirmed :
      (client : RelayClient) (metadata : Text) (h h' : History) (txn : RelayerTransaction)
      → execute_and_wait eth host client metadata h ≡ (ok txn, h')
      → Confirmed client h h' txn
  unfolding execute_and_wait
  execute_and_wait-Confirmed client metadata h h' txn p =
      let run = execute eth host client (usdc ∷ []) metadata in
      let (response, e, w) =
        >>=-returns run (λ (r : SubmittedTransaction). wait host client r) h p in
      record {
        response = response;
        submitted = (run h).1;
        executed =
            execute-Executed eth host client (usdc ∷ []) metadata h (run h).1 response
              (ap (λ (x : Result SubmittedTransaction). (x, (run h).1)) e);
        waited = w;
        final = wait-IsFinal host client response (run h).1 h' txn w;
      }

  -- The Safe was there and nothing happened, or its deployment was submitted, and the transaction of
  -- just that deployment was waited for and is final.
  pub data Ensured (client : RelayClient) (deployed : Bool) (deployment : Option RelayerTransaction)
      (h h' : History) : Type 0 where
    there : deployed ≡ true → deployment ≡ none → h ≡ h' → Ensured client deployed deployment h h'
    created :
        (submitted : History) (response : SubmittedTransaction) (txn : RelayerTransaction)
        → deployed ≡ false
        → DeploySubmitted eth host client h submitted response
        → wait host client response submitted ≡ (ok txn, h')
        → deployment ≡ some txn
        → IsFinal txn
        → Ensured client deployed deployment h h'

  ensure_deployed-Ensured :
      (client : RelayClient) (deployed : Bool) (h h' : History)
      (deployment : Option RelayerTransaction)
      → ensure_deployed eth host client deployed h ≡ (ok deployment, h')
      → Ensured client deployed deployment h h'
  unfolding ensure_deployed
  ensure_deployed-Ensured client true h h' deployment p =
      there refl
        (sym (ok-injective (ap (λ (x : Result (Option RelayerTransaction) × History). x.0) p)))
        (ap (λ (x : Result (Option RelayerTransaction) × History). x.1) p)
  ensure_deployed-Ensured client false h h' deployment p =
      let run = deploy eth host client in
      let keep = λ (txn : RelayerTransaction). pure (some txn) in
      let (response, e, q) =
        >>=-returns run (λ (r : SubmittedTransaction). wait host client r >>= keep) h p in
      let waiting = wait host client response in
      let (txn, w, k) = >>=-returns waiting keep (run h).1 q in
      let last : (waiting (run h).1).1 ≡ h' =
        ap (λ (x : Result (Option RelayerTransaction) × History). x.1) k in
      let waited : waiting (run h).1 ≡ (ok txn, h') = cc (w, last) in
      created (run h).1 response txn refl
        (deploy-DeploySubmitted eth host client h (run h).1 response
          (ap (λ (x : Result SubmittedTransaction). (x, (run h).1)) e))
        waited
        (sym (ok-injective (ap (λ (x : Result (Option RelayerTransaction) × History). x.0) k)))
        (wait-IsFinal host client response (run h).1 h' txn waited)

  -- One behind the other, the client looked for the Safe, ensured that it is there, executed the
  -- transaction, and asked for the transactions.
  pub record IsSettled (client : RelayClient) (safe : Text) (h h' : History) (run : Settled)
      : Type 0 where
    pub deployed : Bool
    pub asked : History
    pub ready : History
    pub confirmed : History
    pub looked : get_deployed host client safe h ≡ (ok deployed, asked)
    pub ensured : Ensured client deployed run.deployment asked ready
    pub settled : Confirmed client ready confirmed run.receipt
    pub listed : get_transactions host client confirmed ≡ (ok run.transactions, h')

  abbrev listing : RelayClient → Option RelayerTransaction → RelayerTransaction → Go Settled
  listing client d t = get_transactions host client >>= λ l.
      pure (record { deployment = d; receipt = t; transactions = l })

  abbrev acting : RelayClient → Option RelayerTransaction → Go Settled
  acting client d =
      execute_and_wait eth host client (codes "grant-demo: approve") >>= listing client d

  run-IsSettled :
      (client : RelayClient) (safe : Text) (h h' : History) (run : Settled)
      → end_to_end_run eth host (client, safe) h ≡ (ok run, h')
      → IsSettled client safe h h' run
  unfolding end_to_end_run
  run-IsSettled client safe h h' run p =
      let look = get_deployed host client safe in
      let (deployed, l, q) =
        >>=-returns look (λ (b : Bool). ensure_deployed eth host client b >>= acting client) h p in
      let h1 = (look h).1 in
      let ensure = ensure_deployed eth host client deployed in
      let (deployment, d, q1) = >>=-returns ensure (acting client) h1 q in
      let h2 = (ensure h1).1 in
      let step = execute_and_wait eth host client (codes "grant-demo: approve") in
      let (receipt, e, q2) = >>=-returns step (listing client deployment) h2 q1 in
      let h3 = (step h2).1 in
      let (transactions, t, q3) =
        >>=-returns (get_transactions host client)
          (λ (l : List RelayerTransaction).
            pure (record { deployment = deployment; receipt = receipt; transactions = l }))
          h3 q2 in
      let is : record { deployment = deployment; receipt = receipt; transactions = transactions }
          ≡ run =
        ok-injective (ap (λ (x : Result Settled × History). x.0) q3) in
      let last : (get_transactions host client h3).1 ≡ h' =
        ap (λ (x : Result Settled × History). x.1) q3 in
      subst (IsSettled client safe h h') is (record {
        deployed = deployed;
        asked = h1;
        ready = h2;
        confirmed = h3;
        looked = ap (λ (x : Result Bool). (x, h1)) l;
        ensured =
            ensure_deployed-Ensured client deployed h1 h2 deployment
              (ap (λ (x : Result (Option RelayerTransaction)). (x, h2)) d);
        settled =
            execute_and_wait-Confirmed client (codes "grant-demo: approve") h2 h3 receipt
              (ap (λ (x : Result RelayerTransaction). (x, h3)) e);
        listed = cc (t, last);
      })

  module _ (curve : Curve) (getenv : Getenv) where
    -- When end_to_end returns, it had set up a client and looked for the Safe. The Safe was deployed, or
    -- its deployment was submitted next, and that deployment was waited for and is mined or confirmed.
    -- Behind that the execution was submitted, waited for and is mined or confirmed, and the
    -- transactions were asked for last.
    pub end_to_end-IsSettled :
        (h h' : History) (run : Settled)
        → end_to_end eth host curve getenv h ≡ (ok run, h')
        → (client : RelayClient) × (safe : Text) × (end_to_end_setup eth curve getenv
            ≡ ok (client, safe))
          × IsSettled client safe h h' run
    unfolding end_to_end
    end_to_end-IsSettled h h' run p =
        let (pair, s, q) =
          >>=-returns (lift (end_to_end_setup eth curve getenv)) (end_to_end_run eth host) h p in
        (pair.0, pair.1, s, run-IsSettled pair.0 pair.1 h h' run q)

    -- When basic returns, it had set up a client, and the execution was submitted and is mined or
    -- confirmed.
    pub basic-Confirmed :
        (h h' : History) (receipt : RelayerTransaction)
        → basic eth host curve getenv h ≡ (ok receipt, h')
        → (client : RelayClient) × (basic_setup eth curve getenv ≡ ok client)
          × Confirmed client h h' receipt
    unfolding basic
    basic-Confirmed h h' receipt p =
        let (client, s, q) =
          >>=-returns (lift (basic_setup eth curve getenv))
            (λ (c : RelayClient). execute_and_wait eth host c (codes "example execution")) h p in
        (client, s, execute_and_wait-Confirmed client (codes "example execution") h h' receipt q)
