-- ===== src/Logger/Refinement.antt =====
-- What one logger prints, whatever is done with the others.
use go_builder_relayer_clien.Prelude.{
  ℕ, ◌≤◌, ◌<◌, ◌≡◌, refl, sym, subst, arith, Option, none, some, List, [], ◌∷◌, Text, length,
  length-append, get_elem?, All, ◌==◌, if◌then◌else◌, Bool-cases, Option-cases, Bool, inl, inr,
}
use go_builder_relayer_clien.Prelude.Int.{ltb_ℤ}
use go_builder_relayer_clien.Logger.{
  Level, Method, level_of, Logger, standard, no_op, Ref, World, log, logs, set_level, allocate,
  set_default, new_standard_logger, Op, makes_standard, makes_no_op, calls_log, calls_set_level,
  sets_default, default_log, default_set_level, calls, run_op, run_ops,
}
use go_builder_relayer_clien.Logger.View.{
  View, IsView, is_ref, say, view_op, view_ops, get-known, get-append, length-store, logs-IsView,
  set_level-IsView,
}

-- the logger at `q` is one of the first `n`
abbrev pub IsKnown : ℕ → Option Ref → Type 0
IsKnown n none = ⊥
IsKnown n (some q) = q < n

-- an operation that uses none but the first `n` loggers, and no nil pointer
abbrev pub IsGood : {Arg : Type 0} → ℕ → Op Arg → Type 0
IsGood n (makes_standard level out) = Unit
IsGood n makes_no_op = Unit
IsGood n (calls_log q m format args) = q < n
IsGood n (calls_set_level q level) = q < n
IsGood n (sets_default q) = IsKnown n q
IsGood n (default_log m format args) = Unit
IsGood n (default_set_level level) = Unit

pub record IsLive (n : ℕ) (w : World) : Type 0 where
  pub made : n ≤ length w.loggers
  pub known : IsKnown n w.default_logger

calls_found :
    {A : Type 0} (q : Ref) (f : Ref → Logger → A) (w : World) {l : Logger}
    → get_elem? w.loggers q ≡ some l
    → calls (some q) f w ≡ some (f q l)
calls_found q f w e = rw (e, calls) refl

calls_default :
    {A : Type 0} (q : Ref) (f : Ref → Logger → A) (w : World) {l : Logger}
    → w.default_logger ≡ some q
    → get_elem? w.loggers q ≡ some l
    → calls w.default_logger f w ≡ some (f q l)
calls_default q f w named e = rw named (calls_found q f w e)

logs-IsLive :
    {Arg : Type 0} (sprintf : Text → List Arg → Text) (n : ℕ) (q : Ref) (m : Method) (format : Text)
    (args : List Arg) (l : Logger) (w : World)
    → IsLive n w
    → IsLive n (logs sprintf q m format args l w)
unfolding logs log
logs-IsLive sprintf n q m format args no_op w live = live
logs-IsLive sprintf n q m format args (standard l) w live =
    elim (Bool-cases (ltb_ℤ (level_of m) l.level)) [
      | inl low ↦ rw low live
      | inr high ↦ rw high (record { made = live.made; known = live.known })
    ]

set_level-IsLive :
    (n : ℕ) (q : Ref) (level : Level) (l : Logger) (w : World)
    → IsLive n w
    → IsLive n (set_level q level l w)
unfolding set_level
set_level-IsLive n q level no_op w live = live
set_level-IsLive n q level (standard l) w live = record {
  made =
      subst (λ (k : ℕ). n ≤ k)
        (sym (length-store q (standard (record l { level = level })) w.loggers)) live.made;
  known = live.known;
}

allocate-IsLive : (n : ℕ) (l : Logger) (w : World) → IsLive n w → IsLive n (allocate l w)
allocate-IsLive n l w live = record {
  made =
      let more = length-append w.loggers (l ∷ []) in
      let was = live.made in omega (arith, more, was);
  known = live.known;
}

allocate-IsView :
    (r : Ref) (l : Logger) (w : World) (v : View) → IsView r w v → IsView r (allocate l w) v
allocate-IsView r l w v i = record {
  found = get-append w.loggers (l ∷ []) r i.found;
  by_default = i.by_default;
  shown = i.shown;
}

module _ {Arg : Type 0} (sprintf : Text → List Arg → Text) (r : Ref) where
  -- An operation leads to a world like this.
  record Leads (n : ℕ) (w : World) (op : Op Arg) (v : View) : Type 0 where
    world : World
    returns : run_op sprintf op w ≡ some world
    live : IsLive n world
    view : IsView r world (view_op sprintf r op v)

  calls_good :
      {n : ℕ} {w : World} (q : Ref)
      → IsLive n w
      → q < n
      → (l : Logger) × (get_elem? w.loggers q ≡ some l)
  calls_good {n} {w} q live good =
      let was = live.made in get-known w.loggers q (omega (arith, was, good))

  default_known :
      {n : ℕ} {w : World} → IsLive n w → (q : Ref) × (w.default_logger ≡ some q) × (q < n)
  default_known {n} {w} live = elim (Option-cases w.default_logger) [
    | inl nil ↦ absurd (subst (IsKnown n) nil live.known)
    | inr (q, named) ↦ (q, named, subst (IsKnown n) named live.known)
  ]

  run_op-Leads :
      (n : ℕ) (w : World) (op : Op Arg) (v : View)
      → IsLive n w
      → IsView r w v
      → IsGood n op
      → Leads n w op v
  unfolding run_op set_default new_standard_logger
  run_op-Leads n w (makes_standard level out) v live i good = record {
    world = allocate (standard (new_standard_logger level out)) w;
    returns = refl;
    live = allocate-IsLive n _ w live;
    view = allocate-IsView r _ w v i;
  }
  run_op-Leads n w makes_no_op v live i good = record {
    world = allocate no_op w;
    returns = refl;
    live = allocate-IsLive n _ w live;
    view = allocate-IsView r _ w v i;
  }
  run_op-Leads n w (calls_log q m format args) v live i good =
      let (l, e) = calls_good q live good in
      record {
        world = logs sprintf q m format args l w;
        returns = calls_found q (λ k l'. logs sprintf k m format args l' w) w e;
        live = logs-IsLive sprintf n q m format args l w live;
        view = logs-IsView sprintf r q m format args l w v e i;
      }
  run_op-Leads n w (calls_set_level q level) v live i good =
      let (l, e) = calls_good q live good in
      let was = live.made in
      record {
        world = set_level q level l w;
        returns = calls_found q (λ k l'. set_level k level l' w) w e;
        live = set_level-IsLive n q level l w live;
        view = set_level-IsView sprintf r q level l w v e (omega (arith, was, good)) i;
      }
  run_op-Leads n w (sets_default q) v live i good = record {
    world = set_default q w;
    returns = refl;
    live = record { made = live.made; known = good };
    view = record { found = i.found; by_default = refl; shown = i.shown };
  }
  run_op-Leads n w (default_log m format args) v live i good =
      let (q, named, known) = default_known live in
      let (l, e) = calls_good q live known in
      let is : (q == r) ≡ v.is_default =
        subst (λ (o : Option Ref). is_ref o r ≡ v.is_default) named i.by_default in
      record {
        world = logs sprintf q m format args l w;
        returns = calls_default q (λ k l'. logs sprintf k m format args l' w) w named e;
        live = logs-IsLive sprintf n q m format args l w live;
        view =
            subst
              (λ (b : Bool).
                IsView r (logs sprintf q m format args l w)
                  (if b then say sprintf r m format args v else v))
              is (logs-IsView sprintf r q m format args l w v e i);
      }
  run_op-Leads n w (default_set_level level) v live i good =
      let (q, named, known) = default_known live in
      let (l, e) = calls_good q live known in
      let was = live.made in
      let is : (q == r) ≡ v.is_default =
        subst (λ (o : Option Ref). is_ref o r ≡ v.is_default) named i.by_default in
      record {
        world = set_level q level l w;
        returns = calls_default q (λ k l'. set_level k level l' w) w named e;
        live = set_level-IsLive n q level l w live;
        view =
            subst
              (λ (b : Bool).
                IsView r (set_level q level l w) (if b then record v { level = level } else v))
              is (set_level-IsView sprintf r q level l w v e (omega (arith, was, known)) i);
      }

  -- A program that uses no nil pointer and none but the loggers of its start returns, and what the
  -- standard logger at `r` printed and its level are those of the specification of one logger: only
  -- its own calls count, and those of the package while it is the default logger.
  pub run_ops-refines :
      (n : ℕ) (ops : List (Op Arg)) (w : World) (v : View)
      → IsLive n w
      → IsView r w v
      → All (IsGood n) ops
      → (w' : World) × (run_ops sprintf ops w ≡ some w') × IsView r w' (view_ops sprintf r ops v)
  unfolding run_ops
  run_ops-refines n [] w v live i good = (w, refl, i)
  run_ops-refines n (op ∷ ops) w v live i good =
      let step = run_op-Leads n w op v live i good.0 in
      let (w', e, i') =
        run_ops-refines n ops step.world (view_op sprintf r op v) step.live step.view good.1 in
      (w', rw (step.returns, run_ops) e, i')
