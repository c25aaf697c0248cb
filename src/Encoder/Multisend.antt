-- ===== src/Encoder/Multisend.antt =====
-- The packed batch, read the way that the MultiSend contract reads it.
pub mod RoundTrip
use go_builder_relayer_clien.Prelude.{
  ℕ, zero, suc, ◌+◌, ◌-◌, ◌%◌, ◌^◌, ◌<◌, ◌≡◌, refl, ◌∙◌, Option, none, some, List, [], ◌∷◌, ◌++◌,
  append_assoc, arith, Bytes, codes, leb, if◌then◌else◌, length, take, drop, le→leb, length-append,
  take-append_left, drop-append_left,
}
use go_builder_relayer_clien.Prelude.Int.{ℤ, pos, abs}
use go_builder_relayer_clien.Golang.Positional.{value}
use go_builder_relayer_clien.Golang.BigInt.{big_bytes}
use go_builder_relayer_clien.Errors.{ok, ◌>>=◌}
use go_builder_relayer_clien.Types.{SafeTransaction}
use go_builder_relayer_clien.Ethereum.{Ethereum}
use go_builder_relayer_clien.Utils.{parse_big_int, decode_hex, left_pad_32}
use go_builder_relayer_clien.Utils.Words.{length-left_pad_32, value-word}
use go_builder_relayer_clien.Encoder.{packed_call}

-- a call as the contract makes it
pub record Call : Type 0 where
  pub operation : ℕ
  pub to : Bytes
  pub amount : ℕ
  pub payload : Bytes

-- The first `n` bytes and the rest, if there are so many.
abbrev pub cut : ℕ → Bytes → Option (Bytes × Bytes)
cut n b = if leb n (length b) then some (take n b, drop n b) else none

infixl 5 ◌>>?◌
abbrev pub ◌>>?◌ : {A B : Type 0} → Option A → (A → Option B) → Option B
none >>? k = none
some a >>? k = k a

-- one operation byte, 20 bytes of an address, a word for the value, a word for the length, the data
pub read_call : Bytes → Option (Call × Bytes)
read_call [] = none
read_call (operation ∷ b) = cut 20 b >>? λ (to, b1). cut 32 b1 >>? λ (amount, b2).
    cut 32 b2 >>? λ (size, b3). cut (value 256 size) b3 >>? λ (payload, rest).
    some (
      record { operation = operation; to = to; amount = value 256 amount; payload = payload },
      rest,
    )

-- The calls of a packed batch: every call takes 85 bytes or more, so its length is fuel enough.
pub read_calls : ℕ → Bytes → Option (List Call)
unfolding read_call
read_calls fuel [] = some []
read_calls zero (_ ∷ _) = none
read_calls (suc fuel) (c ∷ b) =
    read_call (c ∷ b) >>? λ (call, rest). read_calls fuel rest >>? λ calls. some (call ∷ calls)

pub unpack : Bytes → Option (List Call)
unfolding read_calls
unpack b = read_calls (length b) b

module _ (eth : Ethereum) where
  -- the call that a transaction stands for, its texts read
  abbrev pub call_of : SafeTransaction → ℤ → Bytes → Call
  call_of tx v b = record {
    operation = tx.operation;
    to = eth.hex_to_address tx.to;
    amount = abs v % 2 ^ 256;
    payload = b;
  }

  -- The texts of each transaction are readable, and the calls are what they stand for, in order.
  pub data Denotes : List SafeTransaction → List Call → Type 0 where
    done : Denotes [] []
    more :
        (tx : SafeTransaction) (v : ℤ) (b : Bytes) {txns : List SafeTransaction} {calls : List Call}
        → parse_big_int tx.value ≡ ok v
        → decode_hex eth tx.payload ≡ ok b
        → Denotes txns calls
        → Denotes (tx ∷ txns) (call_of tx v b ∷ calls)

-- 85 bytes and the data for each call
abbrev pub packed_size : List Call → ℕ
packed_size [] = 0
packed_size (c ∷ calls) = 85 + length c.payload + packed_size calls

-- A length that fits a word; Go's lengths are below 2 ^ 63.
abbrev pub Short : Call → Type 0
Short c = length c.payload < 2 ^ 256

cut-append : (n : ℕ) (xs ys : Bytes) → length xs ≡ n → cut n (xs ++ ys) ≡ some (xs, ys)
cut-append n xs ys h = rw (
  le→leb n (length (xs ++ ys)) (omega (arith, length-append {0} xs ys)),
  take-append_left n xs ys h,
  drop-append_left n xs ys h,
)

packed_call-append :
    (operation : ℕ) (to : Bytes) (v : ℤ) (b rest : Bytes)
    → packed_call operation to v b ++ rest
      ≡ operation
        ∷ (to
            ++ (left_pad_32 (big_bytes v)
                ++ (left_pad_32 (big_bytes (pos (length b))) ++ (b ++ rest))))
unfolding packed_call
packed_call-append operation to v b rest = simp append_assoc

pub read_call-packed :
    (operation : ℕ) (to : Bytes) (v : ℤ) (b rest : Bytes)
    → length to ≡ 20
    → length b < 2 ^ 256
    → read_call (packed_call operation to v b ++ rest)
      ≡ some
          (record { operation = operation; to = to; amount = abs v % 2 ^ 256; payload = b }, rest)
unfolding read_call
read_call-packed operation to v b rest h k =
    let size : value 256 (left_pad_32 (big_bytes (pos (length b)))) ≡ length b =
      value-word (pos (length b)) ∙ omega arith in
    rw (
      packed_call-append operation to v b rest,
      cut-append 20 to _ h,
      cut-append 32 (left_pad_32 (big_bytes v)) _ (length-left_pad_32 _),
      cut-append 32 (left_pad_32 (big_bytes (pos (length b)))) _ (length-left_pad_32 _),
      size,
      cut-append (length b) b rest refl,
      value-word v,
    )

pub length-packed_call :
    (operation : ℕ) (to : Bytes) (v : ℤ) (b : Bytes)
    → length to ≡ 20
    → length (packed_call operation to v b) ≡ 85 + length b
unfolding packed_call
length-packed_call operation to v b h = omega (
  arith,
  length-append {0} to,
  length-append {0} (left_pad_32 (big_bytes v)),
  length-append {0} (left_pad_32 (big_bytes (pos (length b)))),
  length-left_pad_32,
)
