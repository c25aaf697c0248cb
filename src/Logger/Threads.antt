-- ===== src/Logger/Threads.antt =====
-- Threads that share one logger. Its log reads the level under the lock and prints behind it, so
-- that other threads may set the level or print in between.
use go_builder_relayer_clien.Prelude.{
  ◌≡◌, refl, sym, subst, true, false, none, List, [], ◌∷◌, ◌++◌, Text, map,
}
use go_builder_relayer_clien.Prelude.Int.{ltb_ℤ}
use go_builder_relayer_clien.Logger.{
  Level, Method, level_of, World, Line, Ref, Writer, log, line_of,
}
use mathlib.Core.List.{Perm, perm_middle, map-append}
use mathlib.Core.List.Perm

-- a call of a method, as it runs in a thread
pub record Message (Arg : Type 0) : Type 0 where
  pub method : Method
  pub format : Text
  pub args : List Arg

-- a logger that threads share: its level, the calls that were let through and print later, and what
-- was printed, newest first
pub record Shared (Arg : Type 0) : Type 0 where
  pub level : Level
  pub waiting : List (Message Arg)
  pub printed : List Line

-- the logger at `r`, with its writer
module _ {Arg : Type 0} (sprintf : Text → List Arg → Text) (r : Ref) (out : Writer) where
  abbrev pub line : Message Arg → Line
  line m = line_of sprintf r out (level_of m.method) m.format m.args

  -- One thread moves: a call reads the level and returns or goes on, a call that went on prints, the
  -- level is set. The list holds the calls that have read the level, with the level that they read,
  -- newest first.
  pub data Steps (s : Shared Arg) : Shared Arg → List (Message Arg × Level) → Type 0 where
    here : Steps s s []
    refused :
        {t : Shared Arg} {calls : List (Message Arg × Level)} (m : Message Arg)
        → Steps s t calls
        → ltb_ℤ (level_of m.method) t.level ≡ true
        → Steps s t ((m, t.level) ∷ calls)
    admitted :
        {t : Shared Arg} {calls : List (Message Arg × Level)} (m : Message Arg)
        → Steps s t calls
        → ltb_ℤ (level_of m.method) t.level ≡ false
        → Steps s (record t { waiting = m ∷ t.waiting }) ((m, t.level) ∷ calls)
    prints :
        {t : Shared Arg} {calls : List (Message Arg × Level)} (m : Message Arg)
        (before behind : List (Message Arg))
        → Steps s t calls
        → t.waiting ≡ before ++ (m ∷ behind)
        → Steps s (record t { waiting = before ++ behind; printed = line m ∷ t.printed }) calls
    sets :
        {t : Shared Arg} {calls : List (Message Arg × Level)} (level : Level)
        → Steps s t calls
        → Steps s (record t { level = level }) calls

  -- what is printed, and what will be
  abbrev pub all_lines : Shared Arg → List Line
  all_lines s = s.printed ++ map line s.waiting

  -- the method of the logger, whole, at a level
  abbrev pub log_at : Message Arg → Level → World → World
  log_at m level w =
      log sprintf r (record { level = level; out = out }) (level_of m.method) m.format m.args w

  -- the calls one behind the other, each at its level
  unfoldable pub one_by_one : List (Message Arg × Level) → List Line → World
  one_by_one [] lines = record { loggers = []; default_logger = none; printed = lines }
  one_by_one ((m, level) ∷ calls) lines = log_at m level (one_by_one calls lines)

  log-low :
      (m : Message Arg) (level : Level) (w : World)
      → ltb_ℤ (level_of m.method) level ≡ true
      → (log_at m level w).printed ≡ w.printed
  unfolding log
  log-low m level w low = rw low refl

  log-high :
      (m : Message Arg) (level : Level) (w : World)
      → ltb_ℤ (level_of m.method) level ≡ false
      → (log_at m level w).printed ≡ line m ∷ w.printed
  unfolding log
  log-high m level w high = rw high refl

  moved :
      (m : Message Arg) (before behind : List (Message Arg)) (printed : List Line)
      → Perm
          (line m ∷ (printed ++ map line (before ++ behind)))
          (printed ++ map line (before ++ (m ∷ behind)))
  moved m before behind printed =
      rw (map-append line before behind, map-append line before (m ∷ behind))
        (Perm.trans (Perm.symm (perm_middle printed (map line before ++ map line behind)))
          (Perm.append_left printed (Perm.symm (perm_middle (map line before) (map line behind)))))

  -- Whatever threads that share a logger do, and in whatever order, the lines that are printed and
  -- those that still wait are, up to their order, what the logging calls print when they run whole, one
  -- behind the other, each at the level that it read: none is lost, and none is printed twice.
  pub Steps-Perm :
      {s t : Shared Arg} {calls : List (Message Arg × Level)}
      → Steps s t calls
      → Perm (all_lines t) (one_by_one calls (all_lines s)).printed
  unfolding one_by_one
  Steps-Perm here = Perm.refl _
  Steps-Perm {s = s} (refused {t} {calls} m p low) =
      subst (Perm (all_lines t)) (sym (log-low m t.level (one_by_one calls (all_lines s)) low))
        (Steps-Perm p)
  Steps-Perm (sets level p) = Steps-Perm p
  Steps-Perm {s = s} (admitted {t} {calls} m p high) =
      subst (Perm (t.printed ++ (line m ∷ map line t.waiting)))
        (sym (log-high m t.level (one_by_one calls (all_lines s)) high))
        (Perm.trans (perm_middle t.printed (map line t.waiting))
          (Perm.cons (line m) (Steps-Perm p)))
  Steps-Perm {s = s} {calls} (prints {t} m before behind p e) =
      Perm.trans (moved m before behind t.printed) (
        subst
          (λ (l : List (Message Arg)).
            Perm (t.printed ++ map line l) (one_by_one calls (all_lines s)).printed)
          e (Steps-Perm p))
