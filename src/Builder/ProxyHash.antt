-- ===== src/Builder/ProxyHash.antt =====
-- The bytes that a proxy signature covers.
use go_builder_relayer_clien.Prelude.{
  ◌+◌, ◌%◌, ◌^◌, ◌≡◌, refl, sym, ap, ◌∙◌, ◌++◌, arith, Bytes, codes, length, length-append,
  append_inj,
}
use go_builder_relayer_clien.Prelude.Int.{ℤ, abs}
use go_builder_relayer_clien.Golang.Positional.{value}
use go_builder_relayer_clien.Golang.BigInt.{big_bytes}
use go_builder_relayer_clien.Errors.{ok, >>=-eq-ok, wrap_error-eq-ok, ok-injective}
use go_builder_relayer_clien.Ethereum.{Ethereum, HasAddresses}
use go_builder_relayer_clien.Utils.{parse_big_int, decode_hex, left_pad_32}
use go_builder_relayer_clien.Utils.Words.{length-left_pad_32, value-word}
use go_builder_relayer_clien.Builder.{ProxyStruct, proxy_struct_bytes}

-- the texts of the struct as they are read
pub record Parts : Type 0 where
  pub from : Bytes
  pub to : Bytes
  pub payload : Bytes
  pub tx_fee : ℤ
  pub gas_price : ℤ
  pub gas_limit : ℤ
  pub nonce : ℤ
  pub relay_hub : Bytes
  pub relay : Bytes

word : ℤ → Bytes
word v = left_pad_32 (big_bytes v)

-- what stands behind the data
tail_of : Parts → Bytes
tail_of p =
    word p.tx_fee
    ++ (word p.gas_price ++ (word p.gas_limit ++ (word p.nonce ++ (p.relay_hub ++ p.relay))))

layout : Parts → Bytes
layout p = codes "rlx:" ++ (p.from ++ (p.to ++ (p.payload ++ tail_of p)))

record Sized (p : Parts) : Type 0 where
  from_size : length p.from ≡ 20
  to_size : length p.to ≡ 20
  relay_hub_size : length p.relay_hub ≡ 20
  relay_size : length p.relay ≡ 20

length-word : (v : ℤ) → length (word v) ≡ 32
unfolding word
length-word v = length-left_pad_32 (big_bytes v)

length-tail_of : (p : Parts) → Sized p → length (tail_of p) ≡ 168
unfolding tail_of
length-tail_of p s = omega (
  arith,
  length-append {0} (word p.tx_fee),
  length-append {0} (word p.gas_price),
  length-append {0} (word p.gas_limit),
  length-append {0} (word p.nonce),
  length-append {0} p.relay_hub,
  length-word,
)

word_inj : (v w : ℤ) → word v ≡ word w → abs v % 2 ^ 256 ≡ abs w % 2 ^ 256
unfolding word
word_inj v w e = sym (value-word v) ∙ ap (value 256) e ∙ value-word w

-- The same fields, the numbers modulo 2 ^ 256.
pub record Agree (p q : Parts) : Type 0 where
  pub from : p.from ≡ q.from
  pub to : p.to ≡ q.to
  pub payload : p.payload ≡ q.payload
  pub tx_fee : abs p.tx_fee % 2 ^ 256 ≡ abs q.tx_fee % 2 ^ 256
  pub gas_price : abs p.gas_price % 2 ^ 256 ≡ abs q.gas_price % 2 ^ 256
  pub gas_limit : abs p.gas_limit % 2 ^ 256 ≡ abs q.gas_limit % 2 ^ 256
  pub nonce : abs p.nonce % 2 ^ 256 ≡ abs q.nonce % 2 ^ 256
  pub relay_hub : p.relay_hub ≡ q.relay_hub
  pub relay : p.relay ≡ q.relay

length-layout : (p : Parts) → Sized p → length (layout p) ≡ 212 + length p.payload
unfolding layout
length-layout p s = omega (
  arith,
  length-append {0} p.from,
  length-append {0} p.to,
  length-append {0} p.payload (tail_of p),
  length-tail_of p s,
)

same_size : (v w : ℤ) → length (word v) ≡ length (word w)
same_size v w = length-word v ∙ sym (length-word w)

layout_inj : (p q : Parts) → Sized p → Sized q → layout p ≡ layout q → Agree p q
unfolding layout tail_of
layout_inj p q s t e =
    let sizes : length p.payload ≡ length q.payload =
      omega (arith, length-layout p s, length-layout q t, ap length e) in
    let (_, e0) = append_inj (codes "rlx:") (codes "rlx:") e refl in
    let (from, e1) = append_inj p.from q.from e0 (omega arith) in
    let (to, e2) = append_inj p.to q.to e1 (omega arith) in
    let (payload, e3) = append_inj p.payload q.payload e2 sizes in
    let (tx_fee, e4) = append_inj (word p.tx_fee) (word q.tx_fee) e3 (same_size _ _) in
    let (gas_price, e5) = append_inj (word p.gas_price) (word q.gas_price) e4 (same_size _ _) in
    let (gas_limit, e6) = append_inj (word p.gas_limit) (word q.gas_limit) e5 (same_size _ _) in
    let (nonce, e7) = append_inj (word p.nonce) (word q.nonce) e6 (same_size _ _) in
    let (relay_hub, relay) = append_inj p.relay_hub q.relay_hub e7 (omega arith) in
    record {
      from = from;
      to = to;
      payload = payload;
      tx_fee = word_inj p.tx_fee q.tx_fee tx_fee;
      gas_price = word_inj p.gas_price q.gas_price gas_price;
      gas_limit = word_inj p.gas_limit q.gas_limit gas_limit;
      nonce = word_inj p.nonce q.nonce nonce;
      relay_hub = relay_hub;
      relay = relay;
    }

-- The parts are what the texts of the struct read as.
pub record Reads (eth : Ethereum) (p : ProxyStruct) (x : Parts) : Type 0 where
  pub from : x.from ≡ eth.hex_to_address p.from
  pub to : x.to ≡ eth.hex_to_address p.to
  pub payload : decode_hex eth p.payload ≡ ok x.payload
  pub tx_fee : parse_big_int p.tx_fee ≡ ok x.tx_fee
  pub gas_price : parse_big_int p.gas_price ≡ ok x.gas_price
  pub gas_limit : parse_big_int p.gas_limit ≡ ok x.gas_limit
  pub nonce : parse_big_int p.nonce ≡ ok x.nonce
  pub relay_hub : x.relay_hub ≡ eth.hex_to_address p.relay_hub
  pub relay : x.relay ≡ eth.hex_to_address p.relay

proxy_struct_bytes-Reads :
    (eth : Ethereum) (p : ProxyStruct) {b : Bytes}
    → proxy_struct_bytes eth p ≡ ok b
    → (x : Parts) × Reads eth p x × (b ≡ layout x)
unfolding proxy_struct_bytes layout tail_of word
proxy_struct_bytes-Reads eth p h =
    let (payload, h0, k0) = >>=-eq-ok _ _ h in
    let (tx_fee, h1, k1) = >>=-eq-ok _ _ k0 in
    let (gas_price, h2, k2) = >>=-eq-ok _ _ k1 in
    let (gas_limit, h3, k3) = >>=-eq-ok _ _ k2 in
    let (nonce, h4, k4) = >>=-eq-ok _ _ k3 in
    (
      record {
        from = eth.hex_to_address p.from;
        to = eth.hex_to_address p.to;
        payload = payload;
        tx_fee = tx_fee;
        gas_price = gas_price;
        gas_limit = gas_limit;
        nonce = nonce;
        relay_hub = eth.hex_to_address p.relay_hub;
        relay = eth.hex_to_address p.relay;
      },
      record {
        from = refl;
        to = refl;
        payload = wrap_error-eq-ok _ _ h0;
        tx_fee = wrap_error-eq-ok _ _ h1;
        gas_price = wrap_error-eq-ok _ _ h2;
        gas_limit = wrap_error-eq-ok _ _ h3;
        nonce = wrap_error-eq-ok _ _ h4;
        relay_hub = refl;
        relay = refl;
      },
      sym (ok-injective k4),
    )

module _ (eth : Ethereum) (addresses : HasAddresses eth) where
  Reads-Sized : {p : ProxyStruct} {x : Parts} → Reads eth p x → Sized x
  Reads-Sized {p} r = record {
    from_size = ap length r.from ∙ addresses.address-length p.from;
    to_size = ap length r.to ∙ addresses.address-length p.to;
    relay_hub_size = ap length r.relay_hub ∙ addresses.address-length p.relay_hub;
    relay_size = ap length r.relay ∙ addresses.address-length p.relay;
  }

  -- Two structs with the same bytes under the hash have the same addresses and data and, modulo
  -- 2 ^ 256, the same absolute numbers: no byte of one field can pass for a byte of another.
  pub proxy_struct_bytes_inj :
      (p q : ProxyStruct) {b : Bytes}
      → proxy_struct_bytes eth p ≡ ok b
      → proxy_struct_bytes eth q ≡ ok b
      → (x y : Parts) × Reads eth p x × Reads eth q y × Agree x y
  proxy_struct_bytes_inj p q h k =
      let (x, r, e) = proxy_struct_bytes-Reads eth p h in
      let (y, t, f) = proxy_struct_bytes-Reads eth q k in
      (x, y, r, t, layout_inj x y (Reads-Sized r) (Reads-Sized t) (sym e ∙ f))
