-- ===== src/Tests/Logs.antt =====
-- Runs of the loggers.
use go_builder_relayer_clien.Prelude.{
  ℕ, zero, ◌+◌, ◌<◌, ◌≡◌, ◌⊎◌, refl, arith, true, Option, none, some, List, [], ◌∷◌, ◌++◌, map,
  Text, codes,
}
use go_builder_relayer_clien.Prelude.Int.{pos}
use go_builder_relayer_clien.Logger.{
  Level, debug, info, warn, error, level_info, level_error, level_none, stderr, writer, Op,
  calls_log, calls_set_level, sets_default, default_log, makes_standard, World, string, run_ops,
}
use go_builder_relayer_clien.Logger.View.{View, IsView, view_ops}
use go_builder_relayer_clien.Logger.Refinement.{run_ops-refines}
use go_builder_relayer_clien.Logger.Environment.{init, env_level, env_level_lem}
use go_builder_relayer_clien.Logger.Threads.{
  Message, Shared, Steps, here, refused, admitted, prints, sets, line, one_by_one, Steps-Perm,
}
use mathlib.Core.List.{Perm}

abbrev sprintf : Text → List Text → Text
sprintf format [] = format
sprintf format (arg ∷ args) = format ++ arg

abbrev start : World
start = init (λ name. codes "WARN")

abbrev before : View
before = record { level = pos 2; out = stderr; is_default = true; lines = [] }

abbrev program : List (Op Text)
program =
    makes_standard level_info (some (writer 7))
    ∷ default_log info (codes "quiet") []
    ∷ calls_log 0 error (codes "failed: ") (codes "x" ∷ [])
    ∷ calls_set_level 0 level_info
    ∷ default_log info (codes "loud") []
    ∷ []

run_ops-refines_example :
    (w : World) × (run_ops sprintf program start ≡ some w)
    × IsView 0 w (view_ops sprintf 0 program before)
unfolding init go_builder_relayer_clien.Logger.new_standard_logger env_level
    go_builder_relayer_clien.Prelude.text_eq
run_ops-refines_example =
    run_ops-refines sprintf 0 1 program start before
      (record { made = omega arith; known = omega arith })
      (record { found = refl; by_default = refl; shown = refl })
      (tt, (tt, (omega arith, (omega arith, (tt, tt)))))

env_level_lem_example :
    (env_level (string (pos 3)) ≡ pos 3)
    × ((env_level (codes "verbose") ≡ level_info)
        ⊎ (string (env_level (codes "verbose")) ≡ codes "verbose"))
env_level_lem_example = env_level_lem (codes "verbose") 3 (omega arith)

abbrev late : Message Text
late = record { method = error; format = codes "late"; args = [] }

-- the level is set to None while the call is between its look at the level and its line
abbrev start_state : Shared Text
start_state = record { level = level_info; waiting = []; printed = [] }

-- the level is set to None while the first call is between its look at the level and its line, and a
-- second call is refused
abbrev raced :
    Steps sprintf 0 stderr start_state
      (record { level = level_none; waiting = []; printed = line sprintf 0 stderr late ∷ [] })
      ((late, level_none) ∷ (late, level_info) ∷ [])
raced = prints late [] [] (refused late (sets level_none (admitted late here refl)) refl) refl

Steps-Perm_example :
    Perm
      (line sprintf 0 stderr late ∷ [])
      (one_by_one sprintf 0 stderr ((late, level_none) ∷ (late, level_info) ∷ []) []).printed
Steps-Perm_example = Steps-Perm sprintf 0 stderr raced
