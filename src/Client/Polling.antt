-- ===== src/Client/Polling.antt =====
-- PollUntilState: which transaction it returns.
pub mod Protocol
pub mod Rounds
use go_builder_relayer_clien.Prelude.{
  ℕ, zero, suc, ◌≡◌, ap, ◌∙◌, subst, true, ◌&&◌, not, List, [], ◌∷◌, Text, text_eq, is_empty,
  Bool-cases, inl, inr,
}
use go_builder_relayer_clien.Prelude.Int.{ℤ}
use go_builder_relayer_clien.Errors.{Result, ok, ok-injective}
use go_builder_relayer_clien.Types.{RelayerTransaction}
use go_builder_relayer_clien.Effects.{checked, History, Host, Go, ◌>>=◌, ◌>>◌, lift, >>=-returns}
use go_builder_relayer_clien.Client.{
  RelayClient, Verdict, reached, broke_down, pending, has_state, verdict_of, settle,
  get_transaction, between_polls, poll_loop, poll_until_state, polls_or_default,
  frequency_or_default, error_or_ok,
}

reached-injective : {a b : RelayerTransaction} → reached a ≡ reached b → a ≡ b
reached-injective p = cc

module _ (host : Host) (c : RelayClient) (id : Text) (states : List Text) where
  -- The last thing that happened is a query for the transaction, and the newest answer has one of the states.
  pub record Reached (txn : RelayerTransaction) (h' : History) : Type 0 where
    pub before : History
    pub older : List RelayerTransaction
    pub found : get_transaction host c id before ≡ (ok (txn ∷ older), h')
    pub good : has_state states txn.state ≡ true

  verdict-reached :
      (fail_state : Text) (txns : List RelayerTransaction) (txn : RelayerTransaction)
      → verdict_of states fail_state txns ≡ reached txn
      → (older : List RelayerTransaction) × (txns ≡ txn ∷ older)
        × (has_state states txn.state ≡ true)
  unfolding verdict_of
  verdict-reached fail_state [] txn p = cc
  verdict-reached fail_state (t ∷ older) txn p = elim (Bool-cases (has_state states t.state)) [
    | inl good ↦
        let e : t ≡ txn = reached-injective (rw good at p) in
        (older, ap (λ (x : RelayerTransaction). x ∷ older) e, rw (← e) good)
    | inr bad ↦ elim (Bool-cases (not (is_empty fail_state) && text_eq t.state fail_state)) [
      | inl q ↦ cc (rw (bad, q) at p)
      | inr q ↦ cc (rw (bad, q) at p)
    ]
  ]

  settle-Reached :
      (v : Verdict) (go_on : Go RelayerTransaction) (h h' : History) (txn : RelayerTransaction)
      → settle v go_on h ≡ (ok txn, h')
      → (v ≡ reached txn → Reached txn h)
      → (go_on h ≡ (ok txn, h') → Reached txn h')
      → Reached txn h'
  unfolding settle
  settle-Reached (reached t) go_on h h' txn p now later =
      let e : t ≡ txn = ok-injective (ap (λ (x : Result RelayerTransaction × History). x.0) p) in
      let same : h ≡ h' = ap (λ (x : Result RelayerTransaction × History). x.1) p in
      subst (Reached txn) same (now (ap reached e))
  settle-Reached (broke_down hash) go_on h h' txn p now later =
      cc (ap (λ (x : Result RelayerTransaction × History). x.0) p)
  settle-Reached pending go_on h h' txn p now later = later p

  poll_loop-Reached :
      (rounds : ℕ) (fail_state : Text) (frequency : ℤ) (h h' : History) (txn : RelayerTransaction)
      → poll_loop host rounds c id states fail_state frequency h ≡ (ok txn, h')
      → Reached txn h'
  unfolding poll_loop
  poll_loop-Reached zero fail_state frequency h h' txn p =
      cc (ap (λ (x : Result RelayerTransaction × History). x.0) p)
  poll_loop-Reached (suc rounds) fail_state frequency h h' txn p =
      let next = poll_loop host rounds c id states fail_state frequency in
      let rest = between_polls host rounds frequency >> next in
      let h1 = checked (host.ctx_done h) ∷ h in
      let query = get_transaction host c id in
      let judged =
        λ (txns : List RelayerTransaction). settle (verdict_of states fail_state txns) rest in
      let (_, _, q) =
        >>=-returns (lift (error_or_ok (host.ctx_done h))) (λ (_ : Unit {0}). query >>= judged) h1
          p in
      let (txns, found, r) = >>=-returns query judged h1 q in
      settle-Reached (verdict_of states fail_state txns) rest (query h1).1 h' txn r
        (λ e.
          let (older, same, good) = verdict-reached fail_state txns txn e in
          record {
            before = h1;
            older = older;
            found =
                ap (λ (x : Result (List RelayerTransaction)). (x, (query h1).1))
                  (found ∙ ap ok same);
            good = good;
          })
        (λ e.
          let (_, _, t) =
            >>=-returns (between_polls host rounds frequency) (λ (_ : Unit {0}). next) (query h1).1
              e in
          poll_loop-Reached rounds fail_state frequency
            (between_polls host rounds frequency (query h1).1).1 h' txn t)

  -- A transaction that polling returns is the newest of the answer to its last query, which is the
  -- last thing that happened, and it has one of the states that were waited for.
  pub poll_until_state-Reached :
      (fail_state : Text) (max_polls frequency : ℤ) (h h' : History) (txn : RelayerTransaction)
      → poll_until_state host c id states fail_state max_polls frequency h ≡ (ok txn, h')
      → Reached txn h'
  unfolding poll_until_state
  poll_until_state-Reached fail_state max_polls frequency h h' txn p =
      poll_loop-Reached (polls_or_default max_polls 10) fail_state (frequency_or_default frequency)
        h h' txn p
