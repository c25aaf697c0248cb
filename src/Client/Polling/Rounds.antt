-- ===== src/Client/Polling/Rounds.antt =====
-- PollUntilState and its rounds.
use go_builder_relayer_clien.Prelude.{
  ℕ, zero, suc, ◌≡◌, refl, ap, sym, subst, ◌∙◌, inl, inr, none, List, Text, Option-cases,
}
use go_builder_relayer_clien.Prelude.Int.{ℤ}
use go_builder_relayer_clien.Errors.{Error, sdk, Result, ok, err, Result-cases}
use go_builder_relayer_clien.Errors.Predefined.{err_transaction_timeout}
use go_builder_relayer_clien.Types.{RelayerTransaction}
use go_builder_relayer_clien.Effects.{History, Host, Go, ◌>>=◌, ◌>>◌, lift}
use go_builder_relayer_clien.Http.{sleep_with_context}
use go_builder_relayer_clien.Client.{
  RelayClient, Verdict, verdict_of, settle, between_polls, poll_loop, poll_until_state,
  polls_or_default, frequency_or_default, error_or_ok,
}
use go_builder_relayer_clien.Client.Polling.Protocol.{
  IsPending, Judges, judges_reached, judges_failed, judges_pending, verdict-Judges, query, looked,
  Polls, exhausted, cancelled, unanswered, ended, broken, given_up, interrupted, slept_on,
}

-- the two halves of a run
halves : {A : Type 0} (m : Go A) (h : History) {r : Result A} → (m h).0 ≡ r → m h ≡ (r, (m h).1)
halves {A} m h p = ap (λ (x : Result A). (x, (m h).1)) p

behind :
    {A B : Type 0} (m : Go A) (f : A → Go B) (h : History) {a : A}
    → (m h).0 ≡ ok a
    → (m >>= f) h ≡ f a (m h).1
behind m f h p = rw p refl

stopped :
    {A B : Type 0} (m : Go A) (f : A → Go B) (h : History) {e : Error}
    → (m h).0 ≡ err e
    → (m >>= f) h ≡ (err e, (m h).1)
stopped m f h p = rw p refl

module _ (host : Host) (c : RelayClient) (id : Text) (states : List Text) (fail_state : Text)
    (frequency : ℤ) where
  abbrev asks : Go (List RelayerTransaction)
  asks = query host c id states fail_state frequency

  abbrev seen : History → History
  seen = looked host c id states fail_state frequency

  -- what a computation makes of a history
  abbrev PollsBy : ℕ → Go RelayerTransaction → History → Type 0
  PollsBy n m h = Polls host c id states fail_state frequency n h (m h).0 (m h).1

  abbrev loop : ℕ → Go RelayerTransaction
  loop n = poll_loop host n c id states fail_state frequency

  abbrev rest_of : ℕ → Go RelayerTransaction
  rest_of n = between_polls host n frequency >> loop n

  moved :
      {n : ℕ} {h : History} {x y : Result RelayerTransaction × History}
      → y ≡ x
      → Polls host c id states fail_state frequency n h x.0 x.1
      → Polls host c id states fail_state frequency n h y.0 y.1
  moved {n} {h} e p =
      subst
        (λ (z : Result RelayerTransaction × History).
          Polls host c id states fail_state frequency n h z.0 z.1)
        (sym e) p

  none_left : (h : History) → loop zero h ≡ (err (sdk err_transaction_timeout), h)
  unfolding poll_loop
  none_left h = refl

  -- behind an answer that tells nothing
  pending-Polls :
      (n : ℕ) (h : History) (txns : List RelayerTransaction)
      → ((h' : History) → PollsBy n (loop n) h')
      → host.ctx_done h ≡ none
      → (asks (seen h)).0 ≡ ok txns
      → IsPending states fail_state txns
      → Polls host c id states fail_state frequency
          (suc n)
          h
          (rest_of n (asks (seen h)).1).0
          (rest_of n (asks (seen h)).1).1
  unfolding between_polls
  pending-Polls zero h txns next on q p =
      moved (none_left (asks (seen h)).1) (given_up txns on (halves asks (seen h) q) p)
  pending-Polls (suc n) h txns next on q p =
      let h1 = (asks (seen h)).1 in
      let sleep = sleep_with_context host frequency in
      let asked = halves asks (seen h) q in
      let go_on = λ (_ : Unit {0}). loop (suc n) in
      elim (Result-cases (sleep h1).0) [
        | inl (e, bad) ↦
            moved (stopped sleep go_on h1 bad) (interrupted txns e on asked p (halves sleep h1 bad))
        | inr (u, good) ↦
            moved (behind sleep go_on h1 good)
              (slept_on txns on asked p (halves sleep h1 good) (next (sleep h1).1))
      ]

  -- behind an answer
  answered-Polls :
      (n : ℕ) (h : History) (txns : List RelayerTransaction) (v : Verdict)
      → ((h' : History) → PollsBy n (loop n) h')
      → host.ctx_done h ≡ none
      → (asks (seen h)).0 ≡ ok txns
      → Judges states fail_state txns v
      → Polls host c id states fail_state frequency
          (suc n)
          h
          (settle v (rest_of n) (asks (seen h)).1).0
          (settle v (rest_of n) (asks (seen h)).1).1
  unfolding settle
  answered-Polls n h txns v next on q (judges_reached txn older e good) =
      ended txn older on (halves asks (seen h) (q ∙ ap ok e)) good
  answered-Polls n h txns v next on q (judges_failed txn older e bad failure) =
      broken txn older on (halves asks (seen h) (q ∙ ap ok e)) bad failure
  answered-Polls n h txns v next on q (judges_pending p) = pending-Polls n h txns next on q p

  abbrev judged : ℕ → List RelayerTransaction → Go RelayerTransaction
  judged n txns = settle (verdict_of states fail_state txns) (rest_of n)

  abbrev gate : History → Go (Unit {0})
  gate h = lift (error_or_ok (host.ctx_done h))

  round_of : (n : ℕ) (h : History) → loop (suc n) h ≡ (gate h >> (asks >>= judged n)) (seen h)
  unfolding poll_loop
  round_of n h = refl

  -- a round whose context is not done
  query-Polls :
      (n : ℕ) (h : History)
      → ((h' : History) → PollsBy n (loop n) h')
      → host.ctx_done h ≡ none
      → Polls host c id states fail_state frequency
          (suc n)
          h
          ((asks >>= judged n) (seen h)).0
          ((asks >>= judged n) (seen h)).1
  query-Polls n h next on = elim (Result-cases (asks (seen h)).0) [
    | inl (e, bad) ↦
        moved (stopped asks (judged n) (seen h) bad) (unanswered e on (halves asks (seen h) bad))
    | inr (txns, good) ↦ moved (behind asks (judged n) (seen h) good) (
        answered-Polls n h txns (verdict_of states fail_state txns) next on good
          (verdict-Judges states fail_state txns))
  ]

  loop-Polls : (n : ℕ) (h : History) → PollsBy n (loop n) h
  loop-Polls zero h = moved (none_left h) exhausted
  loop-Polls (suc n) h =
      let m = λ (_ : Unit {0}). asks >>= judged n in
      elim (Option-cases (host.ctx_done h)) [
        | inr (e, done) ↦
            moved (round_of n h ∙ stopped (gate h) m (seen h) (ap error_or_ok done))
              (cancelled e done)
        | inl on ↦
            moved (round_of n h ∙ behind (gate h) m (seen h) (ap error_or_ok on))
              (query-Polls n h (loop-Polls n) on)
      ]

module _ (host : Host) (c : RelayClient) (id : Text) (states : List Text) (fail_state : Text) where
  -- PollUntilState goes by rounds, maxPolls or 10 of them: each looks at the context and asks for the
  -- transaction. It returns the newest one at a state that is waited for, an error at the state of
  -- failure, the error of a query, of the context or of the sleep at once, and the error of a timeout
  -- behind the last round. Between two rounds it sleeps for the frequency, 2 s where that is below 1 s.
  pub poll_until_state-Polls :
      (max_polls frequency : ℤ) (h : History)
      → Polls host c id states fail_state
          (frequency_or_default frequency)
          (polls_or_default max_polls 10)
          h
          (poll_until_state host c id states fail_state max_polls frequency h).0
          (poll_until_state host c id states fail_state max_polls frequency h).1
  unfolding poll_until_state
  poll_until_state-Polls max_polls frequency h =
      loop-Polls host c id states fail_state (frequency_or_default frequency)
        (polls_or_default max_polls 10) h
