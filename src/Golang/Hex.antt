-- ===== src/Golang/Hex.antt =====
-- The package `encoding/hex`.
use go_builder_relayer_clien.Prelude.{◌+◌, ◌*◌, Option, none, some, [], ◌∷◌, Text, Bytes}
use go_builder_relayer_clien.Golang.Strconv.{digit_value}

-- hex.DecodeString(s); `none` is its error, for a bad digit or an odd length
unfoldable pub decode_string : Text → Option Bytes
unfolding digit_value
decode_string [] = some []
decode_string (_ ∷ []) = none
decode_string (a ∷ b ∷ s) = elim (digit_value 16 a) [
  | none ↦ none
  | some high ↦ elim (digit_value 16 b) [
    | none ↦ none
    | some low ↦ elim (decode_string s) [
      | none ↦ none
      | some rest ↦ some ((high * 16 + low) ∷ rest)
    ]
  ]
]
