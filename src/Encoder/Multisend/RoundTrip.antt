-- ===== src/Encoder/Multisend/RoundTrip.antt =====
-- The MultiSend contract makes the calls that the batch asks for.
use go_builder_relayer_clien.Prelude.{
  ℕ, zero, suc, ◌≤◌, ◌≡◌, ◌↔◌, refl, sym, ap, ◌∙◌, some, List, [], ◌∷◌, ◌++◌, append_assoc,
  append-nil, arith, Bytes, All, length, length-append,
}
use go_builder_relayer_clien.Errors.{ok, >>=-eq-ok, wrap_error-eq-ok}
use go_builder_relayer_clien.Types.{SafeTransaction}
use go_builder_relayer_clien.Ethereum.{Ethereum, HasAddresses}
use go_builder_relayer_clien.Encoder.{packed_call, pack_calls, encode_packed_multisend}
use go_builder_relayer_clien.Encoder.Multisend.{
  Call, call_of, Denotes, done, more, packed_size, Short, read_call, read_calls, unpack, ◌>>?◌,
  read_call-packed, length-packed_call,
}

read_calls-step :
    (fuel : ℕ) (s : Bytes) (c : Call) (rest : Bytes)
    → read_call s ≡ some (c, rest)
    → read_calls (suc fuel) s ≡ (read_calls fuel rest >>? λ calls. some (c ∷ calls))
unfolding read_calls
read_calls-step fuel [] c rest h = unfold read_call in cc h
read_calls-step fuel (a ∷ s) c rest h = rw h

module _ (eth : Ethereum) where
  packed : {txns : List SafeTransaction} {calls : List Call} → Denotes eth txns calls → Bytes
  packed done = []
  packed (more tx v b p q rest) =
      packed_call tx.operation (eth.hex_to_address tx.to) v b ++ packed rest

  pack_calls-packed :
      {txns : List SafeTransaction} {calls : List Call} (d : Denotes eth txns calls) (out : Bytes)
      → pack_calls eth out txns ≡ ok (out ++ packed d)
  unfolding pack_calls packed
  pack_calls-packed done out = ap ok (sym (append-nil out))
  pack_calls-packed (more tx v b p q rest) out =
      rw (p, q)
        (pack_calls-packed rest (out ++ packed_call tx.operation (eth.hex_to_address tx.to) v b)
          ∙ ap ok (append_assoc out _ (packed rest)))

  pack_calls_inversion :
      (txns : List SafeTransaction) (out : Bytes) {r : Bytes}
      → pack_calls eth out txns ≡ ok r
      → (calls : List Call) × Denotes eth txns calls
  unfolding pack_calls
  pack_calls_inversion [] out h = ([], done)
  pack_calls_inversion (tx ∷ txns) out h =
      let (v, p, h1) = >>=-eq-ok _ _ h in
      let (b, q, h2) = >>=-eq-ok _ _ h1 in
      let (calls, d) = pack_calls_inversion txns _ h2 in
      (call_of eth tx v b ∷ calls, more tx v b (wrap_error-eq-ok _ _ p) (wrap_error-eq-ok _ _ q) d)

  -- Encoding succeeds exactly for the batches whose amounts and data are all readable.
  pub encode-ok_iff :
      (txns : List SafeTransaction)
      → ((out : Bytes) × (encode_packed_multisend eth txns ≡ ok out))
        ↔ ((calls : List Call) × Denotes eth txns calls)
  unfolding encode_packed_multisend
  encode-ok_iff txns =
      (λ (out, h). pack_calls_inversion txns [] h, λ (calls, d). (packed d, pack_calls-packed d []))

module _ (eth : Ethereum) (addresses : HasAddresses eth) where
  length-packed :
      {txns : List SafeTransaction} {calls : List Call} (d : Denotes eth txns calls)
      → length (packed eth d) ≡ packed_size calls
  unfolding packed
  length-packed done = refl
  length-packed (more tx v b p q rest) = omega (
    arith,
    length-append {0} (packed_call tx.operation (eth.hex_to_address tx.to) v b),
    length-packed_call tx.operation (eth.hex_to_address tx.to) v b (addresses.address-length tx.to),
    length-packed rest,
  )

  read_calls-packed :
      {txns : List SafeTransaction} {calls : List Call} (d : Denotes eth txns calls) (fuel : ℕ)
      → All Short calls
      → packed_size calls ≤ fuel
      → read_calls fuel (packed eth d) ≡ some calls
  unfolding read_calls packed
  read_calls-packed done zero s h = refl
  read_calls-packed done (suc fuel) s h = refl
  read_calls-packed (more tx v b p q rest) zero s h = absurd (omega arith)
  read_calls-packed (more tx v b p q rest) (suc fuel) (s, ss) h =
      read_calls-step fuel
        (packed_call tx.operation (eth.hex_to_address tx.to) v b ++ packed eth rest) _ _
        (read_call-packed tx.operation (eth.hex_to_address tx.to) v b (packed eth rest)
          (addresses.address-length tx.to) s)
      ∙ rw (read_calls-packed rest fuel ss (omega arith))

  -- A readable batch is encoded, and the contract decodes from it the calls that the batch asks for,
  -- in order: operation, address, the absolute value of the amount modulo 2 ^ 256, and the data. The
  -- encoding takes 85 bytes and the data for each call, which is the capacity that the code reserves
  -- plus the data.
  pub unpack-encode :
      (txns : List SafeTransaction) (calls : List Call)
      → Denotes eth txns calls
      → All Short calls
      → (out : Bytes) × (encode_packed_multisend eth txns ≡ ok out)
        × (unpack out ≡ some calls)
        × (length out ≡ packed_size calls)
  unfolding encode_packed_multisend unpack
  unpack-encode txns calls d s = (
    packed eth d,
    pack_calls-packed eth d [],
    read_calls-packed d (length (packed eth d)) s (omega (arith, length-packed d)),
    length-packed d,
  )
