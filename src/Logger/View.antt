-- ===== src/Logger/View.antt =====
-- One standard logger among the others: what it looks like, and how the methods change that.
use go_builder_relayer_clien.Prelude.{
  ℕ, zero, suc, ◌<◌, ◌≡◌, refl, ap, subst, ◌∙◌, arith, Bool, false, Option, none, some, List, [],
  ◌∷◌, ◌++◌, Text, length, get_elem?, ◌==◌, ==_refl, ==_iff, if◌then◌else◌, Bool-cases, inl, inr,
}
use go_builder_relayer_clien.Prelude.Int.{ltb_ℤ}
use go_builder_relayer_clien.Logger.{
  Level, Method, level_of, Writer, StandardLogger, Logger, standard, no_op, Ref, Line, World, store,
  line_of, log, logs, set_level, Op, makes_standard, makes_no_op, calls_log, calls_set_level,
  sets_default, default_log, default_set_level,
}

-- what there is to know of one standard logger
pub record View : Type 0 where
  pub level : Level
  pub out : Writer
  pub is_default : Bool
  pub lines : List Line

abbrev pub lines_of : Ref → List Line → List Line
lines_of r [] = []
lines_of r (line ∷ lines) =
    let rest = lines_of r lines in if line.by == r then line ∷ rest else rest

abbrev pub is_ref : Option Ref → Ref → Bool
is_ref none r = false
is_ref (some q) r = q == r

-- the logger at `r` of the world looks like this
pub record IsView (r : Ref) (w : World) (v : View) : Type 0 where
  pub found : get_elem? w.loggers r ≡ some (standard (record { level = v.level; out = v.out }))
  pub by_default : is_ref w.default_logger r ≡ v.is_default
  pub shown : lines_of r w.printed ≡ v.lines

module _ {A : Type 0} where
  pub get-known : (xs : List A) (q : ℕ) → q < length xs → (a : A) × (get_elem? xs q ≡ some a)
  get-known [] q h = absurd (omega arith)
  get-known (x ∷ xs) zero h = (x, refl)
  get-known (x ∷ xs) (suc q) h = get-known xs q (omega arith)

  pub get-append :
      (xs ys : List A) (q : ℕ) {a : A} → get_elem? xs q ≡ some a → get_elem? (xs ++ ys) q ≡ some a
  get-append [] ys q e = cc
  get-append (x ∷ xs) ys zero e = e
  get-append (x ∷ xs) ys (suc q) e = get-append xs ys q e

pub length-store : (q : Ref) (l : Logger) (ls : List Logger) → length (store q l ls) ≡ length ls
length-store q l [] = refl
length-store zero l (x ∷ ls) = refl
length-store (suc q) l (x ∷ ls) = ap suc (length-store q l ls)

get-store :
    (q : Ref) (l : Logger) (ls : List Logger) → q < length ls → get_elem? (store q l ls) q ≡ some l
get-store q l [] h = absurd (omega arith)
get-store zero l (x ∷ ls) h = refl
get-store (suc q) l (x ∷ ls) h = get-store q l ls (omega arith)

get-store_other :
    (q r : Ref) (l : Logger) (ls : List Logger)
    → (q == r) ≡ false
    → get_elem? (store q l ls) r ≡ get_elem? ls r
get-store_other q r l [] h = refl
get-store_other zero zero l (x ∷ ls) h = ground arith
get-store_other zero (suc r) l (x ∷ ls) h = refl
get-store_other (suc q) zero l (x ∷ ls) h = refl
get-store_other (suc q) (suc r) l (x ∷ ls) h = get-store_other q r l ls (ground arith)

module _ {Arg : Type 0} (sprintf : Text → List Arg → Text) (r : Ref) where
  -- one message: at or above the level it is a line, below it is nothing
  abbrev pub say : Method → Text → List Arg → View → View
  say m format args v =
      let line : Line = line_of sprintf r v.out (level_of m) format args in
      if ltb_ℤ (level_of m) v.level then v else record v { lines = line ∷ v.lines }

  -- an operation, as far as the logger at `r` is concerned
  abbrev pub view_op : Op Arg → View → View
  view_op (makes_standard level out) v = v
  view_op makes_no_op v = v
  view_op (calls_log q m format args) v = if q == r then say m format args v else v
  view_op (calls_set_level q level) v = if q == r then record v { level = level } else v
  view_op (sets_default q) v = record v { is_default = is_ref q r }
  view_op (default_log m format args) v = if v.is_default then say m format args v else v
  view_op (default_set_level level) v = if v.is_default then record v { level = level } else v

  abbrev pub view_ops : List (Op Arg) → View → View
  view_ops [] v = v
  view_ops (op ∷ ops) v = view_ops ops (view_op op v)

  same_logger :
      {w : World} {v : View} {l : Logger}
      → IsView r w v
      → get_elem? w.loggers r ≡ some l
      → l ≡ standard (record { level = v.level; out = v.out })
  same_logger {w} {v} {l} i e = cc (i.found, e)

  -- the logger at `r` says it
  log-IsView :
      (m : Method) (format : Text) (args : List Arg) (w : World) (v : View)
      → IsView r w v
      → IsView r
          (log sprintf r (record { level = v.level; out = v.out }) (level_of m) format args w)
          (say m format args v)
  unfolding log
  log-IsView m format args w v i = elim (Bool-cases (ltb_ℤ (level_of m) v.level)) [
    | inl low ↦ rw low i
    | inr high ↦ rw high (record {
      found = i.found;
      by_default = i.by_default;
      shown = rw (==_refl r, i.shown) refl;
    })
  ]

  -- another logger does
  log_other :
      (q : Ref) (l : StandardLogger) (level : Level) (format : Text) (args : List Arg) (w : World)
      (v : View)
      → (q == r) ≡ false
      → IsView r w v
      → IsView r (log sprintf q l level format args w) v
  unfolding log
  log_other q l level format args w v other i = elim (Bool-cases (ltb_ℤ level l.level)) [
    | inl low ↦ rw low i
    | inr high ↦
        rw high
          (record { found = i.found; by_default = i.by_default; shown = rw (other, i.shown) refl })
  ]

  logs_other :
      (q : Ref) (m : Method) (format : Text) (args : List Arg) (l : Logger) (w : World) (v : View)
      → (q == r) ≡ false
      → IsView r w v
      → IsView r (logs sprintf q m format args l w) v
  unfolding logs
  logs_other q m format args (standard l) w v other i =
      log_other q l (level_of m) format args w v other i
  logs_other q m format args no_op w v other i = i

  pub logs-IsView :
      (q : Ref) (m : Method) (format : Text) (args : List Arg) (l : Logger) (w : World) (v : View)
      → get_elem? w.loggers q ≡ some l
      → IsView r w v
      → IsView r (logs sprintf q m format args l w) (if q == r then say m format args v else v)
  unfolding logs
  logs-IsView q m format args l w v e i = elim (Bool-cases (q == r)) [
    | inl same ↦
        let at_r : q ≡ r = (==_iff q r).0 same in
        let is : l ≡ standard (record { level = v.level; out = v.out }) =
          same_logger i (subst (λ (k : ℕ). get_elem? w.loggers k ≡ some l) at_r e) in
        rw (same, is, at_r) (log-IsView m format args w v i)
    | inr other ↦ rw other (logs_other q m format args l w v other i)
  ]

  pub set_level-IsView :
      (q : Ref) (level : Level) (l : Logger) (w : World) (v : View)
      → get_elem? w.loggers q ≡ some l
      → q < length w.loggers
      → IsView r w v
      → IsView r (set_level q level l w) (if q == r then record v { level = level } else v)
  unfolding set_level
  set_level-IsView q level no_op w v e known i = elim (Bool-cases (q == r)) [
    | inl same ↦
        let at_r : q ≡ r = (==_iff q r).0 same in
        cc (same_logger i (subst (λ (k : ℕ). get_elem? w.loggers k ≡ some no_op) at_r e))
    | inr other ↦ rw other i
  ]
  set_level-IsView q level (standard l) w v e known i = elim (Bool-cases (q == r)) [
    | inl same ↦
        let at_r : q ≡ r = (==_iff q r).0 same in
        let is : standard l ≡ standard (record { level = v.level; out = v.out }) =
          same_logger i (subst (λ (k : ℕ). get_elem? w.loggers k ≡ some (standard l)) at_r e) in
        let out : l.out ≡ v.out = cc is in
        rw same (record {
          found =
              rw (at_r, out)
                (get-store r (standard (record { level = level; out = v.out })) w.loggers
                  (subst (λ (k : ℕ). k < length w.loggers) at_r known));
          by_default = i.by_default;
          shown = i.shown;
        })
    | inr other ↦ rw other (record {
      found = get-store_other q r (standard (record l { level = level })) w.loggers other ∙ i.found;
      by_default = i.by_default;
      shown = i.shown;
    })
  ]
