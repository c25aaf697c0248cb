-- ===== src/Examples/Environment.antt =====
-- What the example programs read of their environment.
use go_builder_relayer_clien.Prelude.{
  ℕ, ◌-◌, Bool, true, ◌&&◌, List, [], ◌∷◌, Text, is_empty, leb, ltb, if◌then◌else◌, map,
}
use go_builder_relayer_clien.Golang.Strings.{trim_space}

-- os.Getenv, which is empty for a variable that is not set
abbrev pub Getenv : Type 0
Getenv = Text → Text

-- firstEnv of examples/remote_signer_server
unfoldable pub first_env : Getenv → List Text → Text
first_env getenv [] = []
first_env getenv (key ∷ keys) =
    let val = trim_space (getenv key) in
    let rest = first_env getenv keys in if is_empty val then rest else val

is_ascii : Text → Bool
is_ascii [] = true
is_ascii (c ∷ s) = ltb c 128 && is_ascii s

unfoldable pub upper : ℕ → ℕ
upper c = if leb b'a' c && leb c b'z' then c - 32 else c

-- strings.ToUpper, with unicode.ToUpper on a text that is not ASCII as a parameter
unfoldable pub to_upper : (Text → Text) → Text → Text
unfolding is_ascii upper
to_upper unicode_upper s = if is_ascii s then map upper s else unicode_upper s
