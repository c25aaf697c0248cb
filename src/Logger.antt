-- ===== src/Logger.antt =====
-- pkg/logger/logger.go: levels, the standard logger, the silent logger and the default logger.
pub mod View
pub mod Refinement
pub mod Environment
pub mod Threads
use go_builder_relayer_clien.Prelude.{
  ℕ, zero, suc, Option, none, some, List, [], ◌∷◌, ◌++◌, Text, codes, get_elem?, if◌then◌else◌,
}
use go_builder_relayer_clien.Prelude.Int.{ℤ, pos, negsuc, ltb_ℤ}

-- an int, of which five values have names
abbrev pub Level : Type 0
Level = ℤ

abbrev pub level_debug : Level
level_debug = pos 0

abbrev pub level_info : Level
level_info = pos 1

abbrev pub level_warn : Level
level_warn = pos 2

abbrev pub level_error : Level
level_error = pos 3

abbrev pub level_none : Level
level_none = pos 4

-- Level.String
unfoldable pub string : Level → Text
string (pos zero) = codes "DEBUG"
string (pos (suc zero)) = codes "INFO"
string (pos (suc (suc zero))) = codes "WARN"
string (pos (suc (suc (suc zero)))) = codes "ERROR"
string (pos (suc (suc (suc (suc zero))))) = codes "NONE"
string (pos (suc (suc (suc (suc (suc n)))))) = codes "UNKNOWN"
string (negsuc n) = codes "UNKNOWN"

-- the four methods that log, and their levels
pub data Method : Type 0 where
  debug info warn error : Method

abbrev pub level_of : Method → Level
level_of debug = level_debug
level_of info = level_info
level_of warn = level_warn
level_of error = level_error

-- an io.Writer: os.Stderr, or one of the user's
pub data Writer : Type 0 where
  stderr : Writer
  writer : ℕ → Writer

pub record StandardLogger : Type 0 where
  pub level : Level
  pub out : Writer

-- The two loggers of the package.
pub data Logger : Type 0 where
  standard : StandardLogger → Logger
  no_op : Logger

-- a pointer to a logger: its place in the order of the allocations
abbrev pub Ref : Type 0
Ref = ℕ

-- one call of log.Logger.Print, of the logger at `by`
pub record Line : Type 0 where
  pub by : Ref
  pub out : Writer
  pub text : Text

-- The loggers, the variable defaultLogger, where `none` is nil, and what was printed, newest first.
pub record World : Type 0 where
  pub loggers : List Logger
  pub default_logger : Option Ref
  pub printed : List Line

abbrev pub or_stderr : Option Writer → Writer
or_stderr none = stderr
or_stderr (some out) = out

unfoldable pub new_standard_logger : Level → Option Writer → StandardLogger
new_standard_logger level out = record { level = level; out = or_stderr out }

abbrev pub new_no_op_logger : Logger
new_no_op_logger = no_op

-- the methods of NoOpLogger, but for GetLevel
abbrev pub does_nothing : World → World
does_nothing w = w

abbrev pub no_op_level : Level
no_op_level = level_none

-- a new logger behind the others
abbrev pub allocate : Logger → World → World
allocate l w = record w { loggers = w.loggers ++ (l ∷ []) }

-- *l = ...
abbrev pub store : Ref → Logger → List Logger → List Logger
store r l [] = []
store zero l (old ∷ ls) = l ∷ ls
store (suc r) l (old ∷ ls) = old ∷ store r l ls

-- SetLevel of the two loggers, at the logger's place
unfoldable pub set_level : Ref → Level → Logger → World → World
set_level r level (standard l) w = record w {
  loggers = store r (standard (record l { level = level })) w.loggers;
}
set_level r level no_op w = does_nothing w

-- GetLevel
abbrev pub get_level : Logger → Level
get_level (standard l) = l.level
get_level no_op = no_op_level

-- fmt.Sprintf and its arguments are parameters.
module _ {Arg : Type 0} (sprintf : Text → List Arg → Text) where
  abbrev pub rendered : Level → Text → List Arg → Text
  unfolding string
  rendered level format args = (codes "[" ++ (string level ++ codes "] ")) ++ sprintf format args

  -- what is printed of a message
  abbrev pub line_of : Ref → Writer → Level → Text → List Arg → Line
  line_of r out level format args = record { by = r; out = out; text = rendered level format args }

  -- StandardLogger.log
  unfoldable pub log : Ref → StandardLogger → Level → Text → List Arg → World → World
  log r l level format args w =
      if ltb_ℤ level l.level
      then w
      else record w { printed = line_of r l.out level format args ∷ w.printed }

  -- Debug, Info, Warn and Error of the two loggers
  unfoldable pub logs : Ref → Method → Text → List Arg → Logger → World → World
  unfolding log
  logs r m format args (standard l) w = log r l (level_of m) format args w
  logs r m format args no_op w = does_nothing w

-- A method is called by a pointer; a nil pointer panics, as `none`.
abbrev pub calls : {A : Type 0} → Option Ref → (Ref → Logger → A) → World → Option A
calls none f w = none
calls (some r) f w = elim (get_elem? w.loggers r) [ none ↦ none | some l ↦ some (f r l) ]

-- the functions of the package that change something
pub data Op (Arg : Type 0) : Type 0 where
  makes_standard : Level → Option Writer → Op Arg
  makes_no_op : Op Arg
  calls_log : Ref → Method → Text → List Arg → Op Arg
  calls_set_level : Ref → Level → Op Arg
  sets_default : Option Ref → Op Arg
  default_log : Method → Text → List Arg → Op Arg
  default_set_level : Level → Op Arg

-- SetDefault
unfoldable pub set_default : Option Ref → World → World
set_default r w = record w { default_logger = r }

-- GetLevel of the package
unfoldable pub default_level : World → Option Level
default_level w = calls w.default_logger (λ r l. get_level l) w

module _ {Arg : Type 0} (sprintf : Text → List Arg → Text) where
  unfoldable pub run_op : Op Arg → World → Option World
  unfolding new_standard_logger set_level set_default logs
  run_op (makes_standard level out) w = some (allocate (standard (new_standard_logger level out)) w)
  run_op makes_no_op w = some (allocate new_no_op_logger w)
  run_op (calls_log r m format args) w = calls (some r) (λ r l. logs sprintf r m format args l w) w
  run_op (calls_set_level r level) w = calls (some r) (λ r l. set_level r level l w) w
  run_op (sets_default r) w = some (set_default r w)
  run_op (default_log m format args) w =
      calls w.default_logger (λ r l. logs sprintf r m format args l w) w
  run_op (default_set_level level) w = calls w.default_logger (λ r l. set_level r level l w) w

  -- a program, up to its first panic
  unfoldable pub run_ops : List (Op Arg) → World → Option World
  unfolding run_op
  run_ops [] w = some w
  run_ops (op ∷ ops) w = elim (run_op op w) [ none ↦ none | some w' ↦ run_ops ops w' ]
