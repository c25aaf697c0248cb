-- ===== src/Client/Session.antt =====
-- A program that makes calls of one client, in any order, whatever they return.
pub mod Attributed
pub mod Requests
use go_builder_relayer_clien.Prelude.{List, [], ◌∷◌, Text}
use go_builder_relayer_clien.Prelude.Int.{ℤ}
use go_builder_relayer_clien.Types.{Transaction}
use go_builder_relayer_clien.Ethereum.{Ethereum}
use go_builder_relayer_clien.Effects.{History, Host}
use go_builder_relayer_clien.Client.{
  RelayClient, get_nonce, get_relay_payload, get_transaction, get_transactions, get_deployed,
  execute, deploy, poll_until_state,
}

-- the operations that ask the relayer, with their arguments; Wait and WaitWithOptions are calls of
-- `polls`, and SetHTTPClient is not among them
pub data Call : Type 0 where
  asks_nonce asks_relay_payload : Text → Text → Call
  asks_transaction asks_deployed : Text → Call
  asks_transactions deploys : Call
  executes : List Transaction → Text → Call
  polls : Text → List Text → Text → ℤ → ℤ → Call

module _ (eth : Ethereum) (host : Host) (c : RelayClient) where
  -- the history behind one call
  unfoldable pub perform : Call → History → History
  perform (asks_nonce a t) h = (get_nonce host c a t h).1
  perform (asks_relay_payload a t) h = (get_relay_payload host c a t h).1
  perform (asks_transaction id) h = (get_transaction host c id h).1
  perform (asks_deployed a) h = (get_deployed host c a h).1
  perform asks_transactions h = (get_transactions host c h).1
  perform deploys h = (deploy eth host c h).1
  perform (executes txns metadata) h = (execute eth host c txns metadata h).1
  perform (polls id states fail_state max_polls frequency) h =
      (poll_until_state host c id states fail_state max_polls frequency h).1

  unfoldable pub session : List Call → History → History
  unfolding perform
  session [] h = h
  session (call ∷ calls) h = session calls (perform call h)
