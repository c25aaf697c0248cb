-- ===== src/Client/Polling/Protocol.antt =====
-- PollUntilState: its rounds as a relation.
use go_builder_relayer_clien.Prelude.{
  ℕ, zero, suc, ◌≡◌, ◌≢◌, refl, ◌⊎◌, inl, inr, true, false, ◌&&◌, not, none, some, List, [], ◌∷◌,
  ◌++◌, Text, codes, text_eq, text_eq_iff, is_empty, Bool-cases,
}
use go_builder_relayer_clien.Prelude.Int.{ℤ}
use go_builder_relayer_clien.Errors.{Error, sdk, wrapped, Result, ok, err}
use go_builder_relayer_clien.Errors.Predefined.{err_transaction_failed, err_transaction_timeout}
use go_builder_relayer_clien.Types.{RelayerTransaction}
use go_builder_relayer_clien.Effects.{checked, History, Host, Go}
use go_builder_relayer_clien.Http.{sleep_with_context}
use go_builder_relayer_clien.Client.{
  RelayClient, Verdict, reached, broke_down, pending, has_state, verdict_of, get_transaction,
}

-- s is one of the states
abbrev pub IsOneOf : List Text → Text → Type 0
IsOneOf [] s = ⊥
IsOneOf (state ∷ states) s = (state ≡ s) ⊎ IsOneOf states s

-- s is the state of failure, if there is one
abbrev pub IsFailure : Text → Text → Type 0
IsFailure fail_state s = (fail_state ≢ []) × (s ≡ fail_state)

-- there is nothing to tell: no transaction, or one in another state
abbrev pub IsPending : List Text → Text → List RelayerTransaction → Type 0
IsPending states fail_state [] = Unit
IsPending states fail_state (txn ∷ older) =
    ¬ (IsOneOf states txn.state) × ¬ (IsFailure fail_state txn.state)

abbrev pub failed_with : Text → Error
failed_with hash = wrapped [] (sdk err_transaction_failed) (codes ": " ++ hash)

-- what the newest transaction tells, in these terms
pub data Judges (states : List Text) (fail_state : Text) (txns : List RelayerTransaction)
    : Verdict → Type 0 where
  judges_reached :
      (txn : RelayerTransaction) (older : List RelayerTransaction)
      → txns ≡ txn ∷ older
      → IsOneOf states txn.state
      → Judges states fail_state txns (reached txn)
  judges_failed :
      (txn : RelayerTransaction) (older : List RelayerTransaction)
      → txns ≡ txn ∷ older
      → ¬ (IsOneOf states txn.state)
      → IsFailure fail_state txn.state
      → Judges states fail_state txns (broke_down txn.transaction_hash)
  judges_pending : IsPending states fail_state txns → Judges states fail_state txns pending

has_state-IsOneOf : (states : List Text) (s : Text) → has_state states s ≡ true → IsOneOf states s
unfolding has_state
has_state-IsOneOf [] s p = cc
has_state-IsOneOf (state ∷ states) s p = elim (Bool-cases (text_eq state s)) [
  | inl same ↦ inl ((text_eq_iff state s).0 same)
  | inr other ↦ inr (has_state-IsOneOf states s (rw other at p))
]

has_state-not : (states : List Text) (s : Text) → has_state states s ≡ false → ¬ (IsOneOf states s)
unfolding has_state
has_state-not [] s p q = q
has_state-not (state ∷ states) s p (inl e) = cc (rw ((text_eq_iff state s).1 e) at p)
has_state-not (state ∷ states) s p (inr q) = elim (Bool-cases (text_eq state s)) [
  | inl same ↦ cc (rw same at p)
  | inr other ↦ has_state-not states s (rw other at p) q
]

IsFailure-iff :
    (fail_state s : Text)
    → ((not (is_empty fail_state) && text_eq s fail_state ≡ true) → IsFailure fail_state s)
      × ((not (is_empty fail_state) && text_eq s fail_state ≡ false) → ¬ (IsFailure fail_state s))
IsFailure-iff [] s = (λ p. cc, λ p q. q.0 refl)
IsFailure-iff (c ∷ f) s = (
  λ p. (λ e. cc, (text_eq_iff s (c ∷ f)).0 p),
  λ p q. cc (rw ((text_eq_iff s (c ∷ f)).1 q.1) at p),
)

pub verdict-Judges :
    (states : List Text) (fail_state : Text) (txns : List RelayerTransaction)
    → Judges states fail_state txns (verdict_of states fail_state txns)
unfolding verdict_of
verdict-Judges states fail_state [] = judges_pending tt
verdict-Judges states fail_state (txn ∷ older) = elim (Bool-cases (has_state states txn.state)) [
  | inl good ↦ rw good (judges_reached txn older refl (has_state-IsOneOf states txn.state good))
  | inr bad ↦
      let (yes_failed, not_failed) = IsFailure-iff fail_state txn.state in
      elim (Bool-cases (not (is_empty fail_state) && text_eq txn.state fail_state)) [
        | inl q ↦
            rw (bad, q)
              (judges_failed txn older refl (has_state-not states txn.state bad) (yes_failed q))
        | inr q ↦ rw (bad, q) (judges_pending (has_state-not states txn.state bad, not_failed q))
      ]
]

module _ (host : Host) (c : RelayClient) (id : Text) (states : List Text) (fail_state : Text)
    (frequency : ℤ) where
  abbrev pub query : Go (List RelayerTransaction)
  query = get_transaction host c id

  abbrev pub looked : History → History
  looked h = checked (host.ctx_done h) ∷ h

  -- The rounds that are left, the history before them, the result and the history behind it.
  pub data Polls : ℕ → History → Result RelayerTransaction → History → Type 0 where
    -- no poll is left
    exhausted : {h : History} → Polls zero h (err (sdk err_transaction_timeout)) h
    -- the context is done
    cancelled :
        {n : ℕ} {h : History} (e : Error)
        → host.ctx_done h ≡ some e
        → Polls (suc n) h (err e) (looked h)
    -- the query fails
    unanswered :
        {n : ℕ} {h h' : History} (e : Error)
        → host.ctx_done h ≡ none
        → query (looked h) ≡ (err e, h')
        → Polls (suc n) h (err e) h'
    -- the newest transaction has a state that is waited for
    ended :
        {n : ℕ} {h h' : History} (txn : RelayerTransaction) (older : List RelayerTransaction)
        → host.ctx_done h ≡ none
        → query (looked h) ≡ (ok (txn ∷ older), h')
        → IsOneOf states txn.state
        → Polls (suc n) h (ok txn) h'
    -- it has failed
    broken :
        {n : ℕ} {h h' : History} (txn : RelayerTransaction) (older : List RelayerTransaction)
        → host.ctx_done h ≡ none
        → query (looked h) ≡ (ok (txn ∷ older), h')
        → ¬ (IsOneOf states txn.state)
        → IsFailure fail_state txn.state
        → Polls (suc n) h (err (failed_with txn.transaction_hash)) h'
    -- neither, behind the last poll, which is not slept for
    given_up :
        {h h' : History} (txns : List RelayerTransaction)
        → host.ctx_done h ≡ none
        → query (looked h) ≡ (ok txns, h')
        → IsPending states fail_state txns
        → Polls 1 h (err (sdk err_transaction_timeout)) h'
    -- neither, and the sleep is interrupted
    interrupted :
        {n : ℕ} {h h1 h' : History} (txns : List RelayerTransaction) (e : Error)
        → host.ctx_done h ≡ none
        → query (looked h) ≡ (ok txns, h1)
        → IsPending states fail_state txns
        → sleep_with_context host frequency h1 ≡ (err e, h')
        → Polls (suc (suc n)) h (err e) h'
    -- neither, and there is another poll behind the sleep
    slept_on :
        {n : ℕ} {h h1 h2 h' : History} {r : Result RelayerTransaction}
        (txns : List RelayerTransaction)
        → host.ctx_done h ≡ none
        → query (looked h) ≡ (ok txns, h1)
        → IsPending states fail_state txns
        → sleep_with_context host frequency h1 ≡ (ok tt, h2)
        → Polls (suc n) h2 r h'
        → Polls (suc (suc n)) h r h'
