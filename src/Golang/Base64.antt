-- ===== src/Golang/Base64.antt =====
-- The package `encoding/base64`: the URL and the standard alphabet, with padding and without.
use go_builder_relayer_clien.Prelude.{
  ℕ, ◌+◌, ◌-◌, ◌*◌, ◌/◌, ◌%◌, Bool, true, false, ◌&&◌, Option, none, some, [], ◌∷◌, ◌++◌, Text,
  Bytes, leb, ltb, ◌==◌, if◌then◌else◌, ◌||◌,
}

-- - and _ stand for 62 and 63 in the URL alphabet, + and / in the standard one
pub data Alphabet : Type 0 where
  url std : Alphabet

abbrev pub char62 : Alphabet → ℕ
char62 url = b'-'
char62 std = b'+'

abbrev pub char63 : Alphabet → ℕ
char63 url = b'_'
char63 std = b'/'

unfoldable pub sextet : Alphabet → ℕ → Option ℕ
sextet alphabet c =
    if leb b'A' c && leb c b'Z'
    then some (c - b'A')
    else if leb b'a' c && leb c b'z'
    then some (c - b'a' + 26)
    else if leb b'0' c && leb c b'9'
    then some (c - b'0' + 52)
    else if c == char62 alphabet
    then some 62
    else if c == char63 alphabet
    then some 63
    else none

unfoldable pub letter : Alphabet → ℕ → ℕ
letter alphabet d =
    if ltb d 26
    then b'A' + d
    else if ltb d 52
    then b'a' + (d - 26)
    else if ltb d 62
    then b'0' + (d - 52)
    else if d == 62
    then char62 alphabet
    else char63 alphabet

infixl 5 ◌>>=◌
abbrev ◌>>=◌ : {A B : Type 0} → Option A → (A → Option B) → Option B
none >>= k = none
some a >>= k = k a

-- one byte of two characters, two of three, three of four; spare low bits are not looked at
unfoldable pub one_byte : Alphabet → ℕ → ℕ → Option Bytes
unfolding sextet
one_byte alphabet a b = do
  x ← sextet alphabet a
  y ← sextet alphabet b
  some ((x * 4 + y / 16) ∷ [])

unfoldable pub two_bytes : Alphabet → ℕ → ℕ → ℕ → Option Bytes
unfolding sextet
two_bytes alphabet a b c = do
  x ← sextet alphabet a
  y ← sextet alphabet b
  z ← sextet alphabet c
  some ((x * 4 + y / 16) ∷ (y % 16 * 16 + z / 4) ∷ [])

unfoldable pub three_bytes : Alphabet → ℕ → ℕ → ℕ → ℕ → Option Bytes
unfolding sextet
three_bytes alphabet a b c d = do
  x ← sextet alphabet a
  y ← sextet alphabet b
  z ← sextet alphabet c
  w ← sextet alphabet d
  some ((x * 4 + y / 16) ∷ (y % 16 * 16 + z / 4) ∷ (z % 4 * 64 + w) ∷ [])

unfoldable pub decode_quanta : Alphabet → Bool → Text → Option Bytes
unfolding one_byte two_bytes three_bytes
decode_quanta alphabet padded [] = some []
decode_quanta alphabet padded (a ∷ []) = none
decode_quanta alphabet true (a ∷ b ∷ []) = none
decode_quanta alphabet false (a ∷ b ∷ []) = one_byte alphabet a b
decode_quanta alphabet true (a ∷ b ∷ c ∷ []) = none
decode_quanta alphabet false (a ∷ b ∷ c ∷ []) = two_bytes alphabet a b c
decode_quanta alphabet padded (a ∷ b ∷ c ∷ d ∷ []) =
    if padded && d == b'='
    then (if c == b'=' then one_byte alphabet a b else two_bytes alphabet a b c)
    else three_bytes alphabet a b c d
decode_quanta alphabet padded (a ∷ b ∷ c ∷ d ∷ e ∷ rest) = do
  first ← three_bytes alphabet a b c d
  more ← decode_quanta alphabet padded (e ∷ rest)
  some (first ++ more)

-- Line ends are passed over wherever they stand.
unfoldable pub drop_newlines : Text → Text
drop_newlines [] = []
drop_newlines (c ∷ s) = if c == 10 || c == 13 then drop_newlines s else c ∷ drop_newlines s

-- URLEncoding, RawURLEncoding, StdEncoding and RawStdEncoding: DecodeString; `none` is its error
unfoldable pub decode : Alphabet → Bool → Text → Option Bytes
unfolding decode_quanta drop_newlines
decode alphabet padded s = decode_quanta alphabet padded (drop_newlines s)

-- EncodeToString
unfoldable pub encode : Alphabet → Bool → Bytes → Text
unfolding letter
encode alphabet padded [] = []
encode alphabet padded (a ∷ []) =
    letter alphabet (a / 4)
    ∷ letter alphabet (a % 4 * 16)
    ∷ (if padded then b'=' ∷ b'=' ∷ [] else [])
encode alphabet padded (a ∷ b ∷ []) =
    letter alphabet (a / 4)
    ∷ letter alphabet (a % 4 * 16 + b / 16)
    ∷ letter alphabet (b % 16 * 4)
    ∷ (if padded then b'=' ∷ [] else [])
encode alphabet padded (a ∷ b ∷ c ∷ rest) =
    letter alphabet (a / 4)
    ∷ letter alphabet (a % 4 * 16 + b / 16)
    ∷ letter alphabet (b % 16 * 4 + c / 64)
    ∷ letter alphabet (c % 64)
    ∷ encode alphabet padded rest
