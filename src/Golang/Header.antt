-- ===== src/Golang/Header.antt =====
-- http.Header: a map from canonical keys to values, as an association list.
use go_builder_relayer_clien.Prelude.{
  ℕ, ◌+◌, ◌-◌, Bool, true, false, ◌&&◌, ◌||◌, List, [], ◌∷◌, ◌++◌, Text, leb, ◌==◌, if◌then◌else◌,
  text_eq,
}

abbrev pub Header : Type 0
Header = List (Text × List Text)

is_lower : ℕ → Bool
is_lower c = leb b'a' c && leb c b'z'

is_upper : ℕ → Bool
is_upper c = leb b'A' c && leb c b'Z'

is_numeral : ℕ → Bool
is_numeral c = leb b'0' c && leb c b'9'

-- the punctuation of a token: ! # $ % & ' * + - . ^ _ ` | ~
is_mark : ℕ → Bool
is_mark c =
    c == 33
    || c == 35
    || c == 36
    || c == 37
    || c == 38
    || c == 39
    || c == 42
    || c == 43
    || c == 45
    || c == 46
    || c == 94
    || c == 95
    || c == 96
    || c == 124
    || c == 126

is_token : Text → Bool
unfolding is_lower is_upper is_numeral is_mark
is_token [] = true
is_token (c ∷ s) = (is_lower c || is_upper c || is_numeral c || is_mark c) && is_token s

-- Upper case at the start and behind a dash, lower case elsewhere.
recase : Bool → Text → Text
unfolding is_lower is_upper
recase upper [] = []
recase true (c ∷ s) = (if is_lower c then c - 32 else c) ∷ recase (c == b'-') s
recase false (c ∷ s) = (if is_upper c then c + 32 else c) ∷ recase (c == b'-') s

-- http.CanonicalHeaderKey(s)
unfoldable pub canonical_key : Text → Text
unfolding is_token recase
canonical_key s = if is_token s then recase true s else s

-- the values of a canonical key
unfoldable pub values_of : Text → Header → List Text
unfolding text_eq
values_of k [] = []
values_of k ((j, vs) ∷ h) = if text_eq j k then vs else values_of k h

-- h[k] = vs
unfoldable pub put_values : Text → List Text → Header → Header
unfolding text_eq
put_values k vs [] = (k, vs) ∷ []
put_values k vs ((j, ws) ∷ h) = if text_eq j k then (j, vs) ∷ h else (j, ws) ∷ put_values k vs h

abbrev first_or_empty : List Text → Text
first_or_empty [] = []
first_or_empty (v ∷ _) = v

-- h.Get(k), h.Set(k, v), h.Add(k, v)
unfoldable pub header_get : Text → Header → Text
header_get k h = first_or_empty (values_of (canonical_key k) h)

unfoldable pub header_set : Text → Text → Header → Header
header_set k v h = put_values (canonical_key k) (v ∷ []) h

unfoldable pub header_add : Text → Text → Header → Header
header_add k v h = put_values (canonical_key k) (values_of (canonical_key k) h ++ v ∷ []) h

-- for _, v := range values { h.Add(k, v) }
unfoldable pub add_values : Text → List Text → Header → Header
add_values k [] h = h
add_values k (v ∷ vs) h = add_values k vs (header_add k v h)

-- for k, values := range more { for _, v := range values { h.Add(k, v) } }
unfoldable pub add_all : Header → Header → Header
unfolding add_values
add_all [] h = h
add_all ((k, vs) ∷ more) h = add_all more (add_values k vs h)
