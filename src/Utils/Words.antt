-- ===== src/Utils/Words.antt =====
-- 32-byte words: what `LeftPad32` makes of the bytes of a number.
use native.Mathlib.Nat.{pow-le-pow_right}
use go_builder_relayer_clien.Prelude.{
  ℕ, ◌+◌, ◌-◌, ◌*◌, ◌%◌, ◌^◌, ◌≤◌, ◌<◌, ◌≡◌, sym, ap, ◌∙◌, inl, inr, arith, Bytes, IsBytes,
  Bool-cases, leb, leb→le, length, take, drop, replicate, length-append, length-replicate,
  length-drop, take-append-drop, All-drop,
}
use go_builder_relayer_clien.Prelude.Int.{ℤ, abs}
use go_builder_relayer_clien.Golang.Positional.{
  digits, value, value-digits, All-digits, value-append, value-lt, value-replicate,
}
use go_builder_relayer_clien.Golang.BigInt.{big_bytes}
use go_builder_relayer_clien.Utils.{left_pad_32}

pub length-left_pad_32 : (b : Bytes) → length (left_pad_32 b) ≡ 32
unfolding left_pad_32
length-left_pad_32 b = ground (
  arith,
  length-drop (length b - 32) b,
  length-append (replicate (32 - length b) 0) b,
  length-replicate {A = ℕ} (32 - length b) 0,
)

-- the two parts of a number of more than 32 bytes
split_lem : (a b n : ℕ) → n ≡ a * 2 ^ 256 + b → b < 2 ^ 256 → b ≡ n % 2 ^ 256
split_lem a b n h k = omega arith

value-lt_32 : (b : Bytes) → IsBytes b → length b ≤ 32 → value 256 b < 2 ^ 256
value-lt_32 b h k =
    let small : value 256 b < 256 ^ length b = value-lt 256 b h in
    let power : 256 ^ length b ≤ 256 ^ 32 = pow-le-pow_right (omega arith) k in omega arith

pub left_pad_32_full : (b : Bytes) → length b ≡ 32 → left_pad_32 b ≡ b
unfolding left_pad_32
left_pad_32_full b h = rw h

value-drop :
    (b : Bytes)
    → IsBytes b
    → 32 ≤ length b
    → value 256 (drop (length b - 32) b) ≡ value 256 b % 2 ^ 256
value-drop b h k =
    let front = take (length b - 32) b in
    let back = drop (length b - 32) b in
    let size : length back ≡ 32 = omega (arith, length-drop (length b - 32) b) in
    split_lem (value 256 front) (value 256 back) (value 256 b)
      (ap (value 256) (sym (take-append-drop (length b - 32) b))
        ∙ value-append 256 front back
        ∙ ap (λ (t : ℕ). value 256 front * 256 ^ t + value 256 back) size)
      (value-lt_32 back (All-drop _ (length b - 32) b h) (omega arith))

-- The word of a big-endian number is the number modulo 2 ^ 256.
pub value-left_pad_32 : (b : Bytes) → IsBytes b → value 256 (left_pad_32 b) ≡ value 256 b % 2 ^ 256
unfolding left_pad_32
value-left_pad_32 b h = elim (Bool-cases (leb 32 (length b))) [
  | inl long ↦ rw long (value-drop b h (leb→le _ _ long))
  | inr short ↦
      let small : length b ≤ 32 = ground arith in
      rw short (value-replicate 256 (32 - length b) b ∙ omega (arith, value-lt_32 b h small))
]

-- The word of a big integer holds its absolute value modulo 2 ^ 256: the sign is lost, and so are
-- the bits above.
pub value-word : (v : ℤ) → value 256 (left_pad_32 (big_bytes v)) ≡ abs v % 2 ^ 256
unfolding big_bytes
value-word v =
    value-left_pad_32 (digits 256 (abs v)) (All-digits 256 (abs v) (omega arith))
    ∙ ap (λ (t : ℕ). t % 2 ^ 256) (value-digits 256 (abs v) (omega arith))
