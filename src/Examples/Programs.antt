-- ===== src/Examples/Programs.antt =====
-- examples/basic/main.go and examples/end_to_end/main.go. A panic is an error. What is printed is
-- left out, but for the values in it.
pub mod Outcomes
use go_builder_relayer_clien.Prelude.{
  Bool, true, false, Option, none, some, List, [], ◌∷◌, Text, codes,
}
use go_builder_relayer_clien.Types.{RelayerTransaction}
use go_builder_relayer_clien.Ethereum.{Ethereum}
use go_builder_relayer_clien.Signer.{Curve}
use go_builder_relayer_clien.Effects.{Host, Go, ◌>>=◌, lift, pure}
use go_builder_relayer_clien.Client.{
  RelayClient, get_deployed, deploy, execute, wait, get_transactions,
}
use go_builder_relayer_clien.Examples.Environment.{Getenv}
use go_builder_relayer_clien.Examples.Setup.{usdc, end_to_end_setup, basic_setup}

-- what end_to_end prints: the deployment, if one was needed, the execution and the transactions
pub record Settled : Type 0 where
  pub deployment : Option RelayerTransaction
  pub receipt : RelayerTransaction
  pub transactions : List RelayerTransaction

module _ (eth : Ethereum) (host : Host) where
  -- the end of both programs: client.Execute and Wait
  unfoldable pub execute_and_wait : RelayClient → Text → Go RelayerTransaction
  execute_and_wait client metadata = do
    resp ← execute eth host client (usdc ∷ []) metadata
    wait host client resp

  -- if !deployed
  unfoldable pub ensure_deployed : RelayClient → Bool → Go (Option RelayerTransaction)
  ensure_deployed client true = pure none
  ensure_deployed client false = do
    resp ← deploy eth host client
    receipt ← wait host client resp
    pure (some receipt)

  -- end_to_end behind its setup
  unfoldable pub end_to_end_run : RelayClient × Text → Go Settled
  end_to_end_run (client, safe) = do
    deployed ← get_deployed host client safe
    deployment ← ensure_deployed client deployed
    receipt ← execute_and_wait client (codes "grant-demo: approve")
    transactions ← get_transactions host client
    pure (record { deployment = deployment; receipt = receipt; transactions = transactions })

  module _ (curve : Curve) (getenv : Getenv) where
    -- main of end_to_end
    unfoldable pub end_to_end : Go Settled
    end_to_end = lift (end_to_end_setup eth curve getenv) >>= end_to_end_run

    -- main of basic
    unfoldable pub basic : Go RelayerTransaction
    basic = lift (basic_setup eth curve getenv) >>= λ client.
        execute_and_wait client (codes "example execution")
