-- ===== src/Utils.antt =====
-- internal/utils/utils.go
pub mod Words
pub mod Signatures
pub mod Integers
use go_builder_relayer_clien.Prelude.{
  ℕ, ◌+◌, ◌-◌, ◌%◌, refl, Bool, ◌||◌, Option, none, some, [], ◌∷◌, ◌++◌, Text, Bytes, codes,
  has_prefix, leb, ◌==◌, if◌then◌else◌, length, take, drop, replicate, get_elem?, not,
}
use go_builder_relayer_clien.Prelude.Int.{ℤ, pos}
use go_builder_relayer_clien.Golang.Strings.{trim_space}
use go_builder_relayer_clien.Golang.Strconv.{format_nat}
use go_builder_relayer_clien.Golang.BigInt.{set_string_prefixed, set_string10}
use go_builder_relayer_clien.Golang.Hex.{decode_string}
use go_builder_relayer_clien.Errors.{plain, foreign, Result, ok, err}
use go_builder_relayer_clien.Ethereum.{Ethereum}

-- strings.HasPrefix(s, "0x") || strings.HasPrefix(s, "0X")
unfoldable pub has_0x : Text → Bool
unfolding has_prefix
has_0x s = has_prefix s (codes "0x") || has_prefix s (codes "0X")

abbrev pub or_invalid : Text → Option ℤ → Result ℤ
or_invalid value none = err (plain (codes "invalid integer: " ++ value))
or_invalid value (some v) = ok v

-- new(big.Int).SetString(clean, base), with base 0 behind a prefix and base 10 elsewhere
unfoldable pub set_string : Text → Option ℤ
set_string clean = if has_0x clean then set_string_prefixed clean else set_string10 clean

unfoldable pub parse_big_int : Text → Result ℤ
parse_big_int [] = ok (pos 0)
parse_big_int (c ∷ s) = or_invalid (c ∷ s) (set_string (trim_space (c ∷ s)))

unfoldable pub left_pad_32 : Bytes → Bytes
left_pad_32 b =
    if leb 32 (length b) then drop (length b - 32) b else replicate (32 - length b) 0 ++ b

abbrev pub or_bad_hex : Option Bytes → Result Bytes
or_bad_hex none = err (foreign (codes "encoding/hex: invalid text"))
or_bad_hex (some b) = ok b

unfoldable pub decode_hex : Ethereum → Text → Result Bytes
unfolding has_0x
decode_hex eth [] = ok []
decode_hex eth (c ∷ s) =
    if has_0x (c ∷ s) then eth.hexutil_decode (c ∷ s) else or_bad_hex (decode_string (c ∷ s))

-- The switch on `v`, a byte.
unfoldable pub pack_v : ℕ → Option ℕ
pack_v v =
    if v == 0 || v == 1
    then some ((v + 31) % 256)
    else if v == 27 || v == 28
    then some ((v + 4) % 256)
    else none

pack_sig : Ethereum → Bytes → Bytes → ℕ → Result Text
unfolding pack_v left_pad_32
pack_sig eth r s v = elim (pack_v v) [
  | none ↦ err (plain (codes "invalid signature v: " ++ format_nat v))
  | some v' ↦ ok (eth.hexutil_encode (left_pad_32 r ++ (left_pad_32 s ++ (v' ∷ []))))
]

-- sig[64] of a signature with 65 bytes
abbrev pub last_byte : Bytes → ℕ
last_byte sig = elim (get_elem? sig 64) [ none ↦ 0 | some v ↦ v ]

unfoldable pub split_and_pack_sig : Ethereum → Bytes → Result Text
unfolding pack_sig
split_and_pack_sig eth sig =
    if not (length sig == 65)
    then err (
        plain
          (codes "invalid signature length: expected 65 bytes, got " ++ format_nat (length sig)))
    else pack_sig eth (take 32 sig) (take 32 (drop 32 sig)) (last_byte sig)
