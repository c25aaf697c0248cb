-- ===== src/Golang/Values.antt =====
-- url.Values and query strings.
use go_builder_relayer_clien.Prelude.{
  ℕ, suc, ◌+◌, ◌-◌, ◌*◌, ◌/◌, ◌%◌, Bool, true, false, ◌&&◌, ◌||◌, Option, none, some, List, [], ◌∷◌,
  ◌++◌, Text, leb, ltb, ◌==◌, if◌then◌else◌, text_eq, is_empty, length, zero,
}
use go_builder_relayer_clien.Golang.Strconv.{digit_value}

abbrev pub Values : Type 0
Values = List (Text × List Text)

-- v.Set(k, x)
unfoldable pub set_value : Text → Text → Values → Values
unfolding text_eq
set_value k x [] = (k, x ∷ []) ∷ []
set_value k x ((j, xs) ∷ v) = if text_eq j k then (j, x ∷ []) ∷ v else (j, xs) ∷ set_value k x v

-- for k, x := range params { v.Set(k, x) }
unfoldable pub set_all : List (Text × Text) → Values → Values
unfolding set_value
set_all [] v = v
set_all ((k, x) ∷ params) v = set_all params (set_value k x v)

-- letters, digits and - _ . ~
is_unreserved : ℕ → Bool
is_unreserved c =
    (leb b'a' c && leb c b'z')
    || (leb b'A' c && leb c b'Z')
    || (leb b'0' c && leb c b'9')
    || c == b'-'
    || c == b'_'
    || c == b'.'
    || c == b'~'

hex_upper : ℕ → ℕ
hex_upper d = if ltb d 10 then b'0' + d else b'A' + (d - 10)

-- url.QueryEscape
unfoldable pub query_escape : Text → Text
unfolding is_unreserved hex_upper
query_escape [] = []
query_escape (c ∷ s) =
    (if is_unreserved c
      then c ∷ []
      else if c == b' '
      then b'+' ∷ []
      else b'%' ∷ hex_upper (c / 16) ∷ hex_upper (c % 16) ∷ [])
    ++ query_escape s

-- s < t, byte by byte
text_lt : Text → Text → Bool
text_lt [] [] = false
text_lt [] (_ ∷ _) = true
text_lt (_ ∷ _) [] = false
text_lt (a ∷ s) (b ∷ t) = ltb a b || (a == b && text_lt s t)

insert_sorted : Text × List Text → Values → Values
unfolding text_lt
insert_sorted p [] = p ∷ []
insert_sorted p (q ∷ v) = if text_lt q.0 p.0 then q ∷ insert_sorted p v else p ∷ q ∷ v

sort_keys : Values → Values
unfolding insert_sorted
sort_keys [] = []
sort_keys (p ∷ v) = insert_sorted p (sort_keys v)

-- "&" before all but the first pair
separate : Text → Text
separate [] = []
separate (c ∷ s) = b'&' ∷ c ∷ s

encode_pairs : Text → List Text → Text → Text
unfolding separate query_escape
encode_pairs k [] rest = rest
encode_pairs k (x ∷ xs) rest =
    query_escape k ++ (b'=' ∷ query_escape x) ++ separate (encode_pairs k xs rest)

encode_sorted : Values → Text
unfolding encode_pairs
encode_sorted [] = []
encode_sorted ((k, xs) ∷ v) = encode_pairs k xs (encode_sorted v)

-- v.Encode(): the pairs by ascending keys
unfoldable pub encode : Values → Text
unfolding sort_keys encode_sorted
encode v = encode_sorted (sort_keys v)

-- url.QueryUnescape; `none` is its error
unfoldable pub query_unescape : Text → Option Text
unfolding digit_value
query_unescape [] = some []
query_unescape (c ∷ []) = if c == b'%' then none else some ((if c == b'+' then b' ' else c) ∷ [])
query_unescape (c ∷ a ∷ []) =
    if c == b'%' || a == b'%'
    then none
    else some ((if c == b'+' then b' ' else c) ∷ (if a == b'+' then b' ' else a) ∷ [])
query_unescape (c ∷ a ∷ b ∷ s) =
    let plain : Option Text = elim (query_unescape (a ∷ b ∷ s)) [
      | none ↦ none
      | some t ↦ some ((if c == b'+' then b' ' else c) ∷ t)
    ] in
    let escaped : Option Text = elim (digit_value 16 a) [
      | none ↦ none
      | some x ↦ elim (digit_value 16 b) [
        | none ↦ none
        | some y ↦ elim (query_unescape s) [ none ↦ none | some t ↦ some ((x * 16 + y) ∷ t) ]
      ]
    ] in
    if c == b'%' then escaped else plain

-- strings.Cut(s, sep): what stands before the separator, and behind it
cut_at : ℕ → Text → Text → Text × Text
cut_at sep before [] = (before, [])
cut_at sep before (c ∷ s) = if c == sep then (before, s) else cut_at sep (before ++ c ∷ []) s

has_byte : ℕ → Text → Bool
has_byte b [] = false
has_byte b (c ∷ s) = c == b || has_byte b s

-- m[key] = append(m[key], value)
append_value : Text → Text → Values → Values
unfolding text_eq
append_value k x [] = (k, x ∷ []) ∷ []
append_value k x ((j, xs) ∷ v) =
    if text_eq j k then (j, xs ++ x ∷ []) ∷ v else (j, xs) ∷ append_value k x v

add_pair : Text × Text → Values → Values
unfolding append_value
add_pair (k, x) v = elim (query_unescape k) [
  | none ↦ v
  | some k' ↦ elim (query_unescape x) [ none ↦ v | some x' ↦ append_value k' x' v ]
]

-- A piece with a semicolon and an empty piece are passed over.
add_piece : Text → Values → Values
unfolding add_pair cut_at has_byte
add_piece piece v =
    if has_byte b';' piece || is_empty piece then v else add_pair (cut_at b'=' [] piece) v

-- the loop of ParseQuery; the length of the text is fuel enough
parse_pieces : ℕ → Text → Values → Values
unfolding add_piece cut_at
parse_pieces fuel [] v = v
parse_pieces zero (_ ∷ _) v = v
parse_pieces (suc fuel) (c ∷ s) v =
    let (piece, rest) = cut_at b'&' [] (c ∷ s) in parse_pieces fuel rest (add_piece piece v)

-- u.Query() of a URL with the query `s`
unfoldable pub parse_query : Text → Values
unfolding parse_pieces
parse_query s = parse_pieces (length s) s []
