-- ===== src/Logger/Environment.antt =====
-- The default logger that a program starts with.
use go_builder_relayer_clien.Prelude.{
  ℕ, zero, suc, ◌<◌, ◌≡◌, refl, sym, ◌∙◌, arith, none, some, [], ◌∷◌, Text, codes, text_eq,
  text_eq_iff, is_empty, if◌then◌else◌, Bool-cases, ◌⊎◌, inl, inr,
}
use go_builder_relayer_clien.Prelude.Int.{pos}
use go_builder_relayer_clien.Logger.{
  Level, level_debug, level_info, level_warn, level_error, level_none, World, standard, string,
  new_standard_logger,
}

-- the level that the variable POLYMARKET_LOG_LEVEL asks for
unfoldable pub env_level : Text → Level
unfolding text_eq
env_level value =
    if is_empty value
    then level_info
    else if text_eq value (codes "DEBUG")
    then level_debug
    else if text_eq value (codes "INFO")
    then level_info
    else if text_eq value (codes "WARN")
    then level_warn
    else if text_eq value (codes "ERROR")
    then level_error
    else if text_eq value (codes "NONE")
    then level_none
    else level_info

-- init, of os.Getenv
unfoldable pub init : (Text → Text) → World
unfolding env_level new_standard_logger
init getenv = record {
  loggers =
      standard (new_standard_logger (env_level (getenv (codes "POLYMARKET_LOG_LEVEL"))) none) ∷ [];
  default_logger = some 0;
  printed = [];
}

-- the level is the one that is meant where nothing is asked for, or the one with that name
abbrev Asked : Text → Level → Type 0
Asked value level = (level ≡ level_info) ⊎ (string level ≡ value)

named :
    (value name : Text) (level otherwise : Level)
    → string level ≡ name
    → Asked value otherwise
    → Asked value (if text_eq value name then level else otherwise)
named value name level otherwise e p = elim (Bool-cases (text_eq value name)) [
  | inl same ↦ rw same (inr (e ∙ sym ((text_eq_iff value name).0 same)))
  | inr other ↦ rw other p
]

env_level-Asked : (value : Text) → Asked value (env_level value)
unfolding env_level string
env_level-Asked [] = inl refl
env_level-Asked (c ∷ value) = named (c ∷ value) (codes "DEBUG") level_debug _ refl (
    named (c ∷ value) (codes "INFO") level_info _ refl (
      named (c ∷ value) (codes "WARN") level_warn _ refl (
        named (c ∷ value) (codes "ERROR") level_error _ refl
          (named (c ∷ value) (codes "NONE") level_none level_info refl (inl refl)))))

env_level-string : (n : ℕ) → n < 5 → env_level (string (pos n)) ≡ pos n
unfolding env_level string text_eq
env_level-string zero h = refl
env_level-string (suc zero) h = refl
env_level-string (suc (suc zero)) h = refl
env_level-string (suc (suc (suc zero))) h = refl
env_level-string (suc (suc (suc (suc zero)))) h = refl
env_level-string (suc (suc (suc (suc (suc n))))) h = absurd (omega arith)

-- The variable that holds the name of a level sets that level, for each of the five levels; and
-- whatever it holds, the level is Info or the one of that name.
pub env_level_lem :
    (value : Text) (n : ℕ)
    → n < 5
    → (env_level (string (pos n)) ≡ pos n)
      × ((env_level value ≡ level_info) ⊎ (string (env_level value) ≡ value))
env_level_lem value n h = (env_level-string n h, env_level-Asked value)
