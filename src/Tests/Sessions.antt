-- ===== src/Tests/Sessions.antt =====
-- A program that asks, executes and waits, and a call that is tried again.
use go_builder_relayer_clien.Prelude.{
  ◌≡◌, ◌⊎◌, ◌+◌, ◌*◌, ◌≤◌, none, some, List, [], ◌∷◌, Bytes, codes, All,
}
use go_builder_relayer_clien.Prelude.Int.{pos}
use go_builder_relayer_clien.Errors.{Error, wrap, Result, ok, err}
use go_builder_relayer_clien.Effects.{Url, History}
use go_builder_relayer_clien.Types.{Transaction, state_mined, state_failed}
use go_builder_relayer_clien.Http.{http_do, target_of}
use go_builder_relayer_clien.Http.Attempts.{exchanges}
use go_builder_relayer_clien.Http.Protocol.{Follows, acts}
use go_builder_relayer_clien.Http.Protocol.Calls.{http_do-Follows}
use go_builder_relayer_clien.Client.{poll_until_state, polls_or_default, frequency_or_default}
use go_builder_relayer_clien.Client.Polling.Protocol.{Polls}
use go_builder_relayer_clien.Client.Polling.Rounds.{poll_until_state-Polls}
use go_builder_relayer_clien.Client.Attribution.{IsAttributedEvent}
use go_builder_relayer_clien.Client.Session.{
  Call, asks_deployed, deploys, executes, polls, asks_transactions, session,
}
use go_builder_relayer_clien.Client.Session.Attributed.{session-attributed}
use go_builder_relayer_clien.Client.Session.Requests.{session-bound}
use go_builder_relayer_clien.Tests.{chain, well, busy, client, three_retries, no_options}

abbrev token : Transaction
token = record { to = codes "0xbob"; payload = codes "0x12"; value = codes "5" }

abbrev program : List Call
program =
    asks_deployed (codes "0xalice")
    ∷ deploys
    ∷ executes (token ∷ []) (codes "m")
    ∷ polls (codes "id") (state_mined ∷ []) state_failed (pos 2) (pos 0)
    ∷ asks_transactions
    ∷ []

session-attributed_example : All IsAttributedEvent (session chain well client program [])
session-attributed_example = session-attributed chain well (λ k t e. cc) client program [] tt

session-bound_example : exchanges (session chain busy client program []) ≤ 0 + 9 * 4
session-bound_example = session-bound chain busy client program []

poll_until_state-Polls_example :
    Polls well client
      (codes "id")
      (state_mined ∷ [])
      state_failed
      (frequency_or_default (pos 0))
      (polls_or_default (pos 2) 10)
      []
      (poll_until_state well client
        (codes "id")
        (state_mined ∷ [])
        state_failed
        (pos 2)
        (pos 0)
        []).0
      (poll_until_state well client
        (codes "id")
        (state_mined ∷ [])
        state_failed
        (pos 2)
        (pos 0)
        []).1
poll_until_state-Polls_example =
    poll_until_state-Polls well client (codes "id") (state_mined ∷ []) state_failed (pos 2) (pos 0)
      []

abbrev whole : Bytes → Result Bytes
whole b = ok b

abbrev tried : Result Bytes × History
tried = http_do well whole [] (some three_retries) (codes "GET") (codes "u") no_options []

http_do-Follows_example :
    ((e : Error) × (well.parse_url (codes "u") ≡ err e)
      × (tried ≡ (err (wrap (codes "parse url: ") e), [])))
    ⊎ ((u : Url) × (well.parse_url (codes "u") ≡ ok u)
        × Follows well three_retries (codes "GET") (target_of well u []) 0 none [] (acts tried.1))
http_do-Follows_example =
    http_do-Follows well whole [] three_retries (codes "GET") (codes "u") no_options []
