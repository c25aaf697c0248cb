-- ===== src/Tests/Library.antt =====
-- Runs of the functions of Go's standard library.
use go_builder_relayer_clien.Prelude.{◌≡◌, refl, none, some, [], ◌∷◌, codes}
use go_builder_relayer_clien.Prelude.Int.{pos, negsuc}
use go_builder_relayer_clien.Golang.Positional.{digits}
use go_builder_relayer_clien.Golang.Strings.{trim_space, trim_right}
use go_builder_relayer_clien.Golang.Strconv.{atoi, parse_signed, format_int}
use go_builder_relayer_clien.Golang.BigInt.{set_string_prefixed, big_bytes}

reads : (atoi (codes "-12") ≡ some (negsuc 11)) × (atoi (codes "1_0") ≡ none)
unfolding atoi parse_signed
reads = (refl, refl)

writes : format_int (negsuc 1229) ≡ codes "-1230"
unfolding format_int digits
writes = refl

hex_reads : set_string_prefixed (codes "0x_fF") ≡ some (pos 255)
unfolding set_string_prefixed
hex_reads = refl

bytes_of_1000 : big_bytes (pos 1000) ≡ 3 ∷ 232 ∷ []
unfolding big_bytes
bytes_of_1000 = refl

trims : trim_space (codes " \t12 \n") ≡ codes "12"
unfolding trim_space
trims = refl

trims_url : trim_right (codes "https://a.b//") b'/' ≡ codes "https://a.b"
unfolding trim_right
trims_url = refl
