-- ===== src/Builder/Signed.antt =====
-- The signature in a request, and what it signs.
use go_builder_relayer_clien.Prelude.{ℕ, ◌+◌, ◌≡◌, refl, [], ◌∷◌, ◌++◌, Text, codes, Bytes, take}
use go_builder_relayer_clien.Golang.Strconv.{format_nat}
use go_builder_relayer_clien.Errors.{ok, wrap_error, >>=-eq-ok, wrap_error-eq-ok, ok-injective}
use go_builder_relayer_clien.Types.{
  SafeTransaction, SafeTransactionArgs, ProxyTransactionArgs, SafeContractConfig,
  ProxyContractConfig, TransactionRequest, transaction_type_safe, transaction_type_proxy,
}
use go_builder_relayer_clien.Ethereum.{Ethereum}
use go_builder_relayer_clien.Signer.{Signer}
use go_builder_relayer_clien.Utils.{last_byte}
use go_builder_relayer_clien.Utils.Signatures.{HasRecoveryBit, split_and_pack_sig_sound}
use go_builder_relayer_clien.Builder.{
  ProxyStruct, derive_safe_address, derive_proxy_wallet_address, aggregate_safe_transactions,
  create_safe_struct_hash, build_safe_transaction_request, create_proxy_struct_hash,
  build_proxy_transaction_request,
}
use go_builder_relayer_clien.Types.{SafeCreateTransactionArgs, transaction_type_safe_create}
use go_builder_relayer_clien.Utils.{parse_big_int}
use go_builder_relayer_clien.Builder.{
  build_safe_create_transaction_request, create_proxy_data, gas_limit_or_default,
}

-- the struct that the relay hub rebuilds from a proxy request alone
abbrev pub struct_of : TransactionRequest → ProxyStruct
struct_of r = record {
  from = r.from;
  to = r.to;
  payload = r.payload;
  tx_fee = r.signature_params.relayer_fee;
  gas_price = r.signature_params.gas_price;
  gas_limit = r.signature_params.gas_limit;
  nonce = r.nonce;
  relay_hub = r.signature_params.relay_hub;
  relay = r.signature_params.relay;
}

module _ (eth : Ethereum) (s : Signer) where
  -- A proxy request carries the signature of the struct that its own fields make up.
  pub record ProxySigned (r : TransactionRequest) : Type 0 where
    pub hash : Bytes
    pub sig : Bytes
    pub hashed : create_proxy_struct_hash eth (struct_of r) ≡ ok hash
    pub signed : s.sign_message hash ≡ ok sig
    pub carried : r.signature ≡ eth.hexutil_encode sig
    pub wallet : derive_proxy_wallet_address eth r.from r.to ≡ ok r.proxy_wallet
    pub kind : r.kind ≡ transaction_type_proxy

  -- A Safe request carries the packed signature of the transaction that it submits, at the Safe of
  -- its sender.
  pub record SafeSigned (args : SafeTransactionArgs) (config : SafeContractConfig)
      (r : TransactionRequest) : Type 0 where
    pub transaction : SafeTransaction
    pub hash : Bytes
    pub sig : Bytes
    pub bit : ℕ
    pub aggregated :
        aggregate_safe_transactions eth args.transactions config.safe_multisend ≡ ok transaction
    pub wallet : derive_safe_address eth r.from config.safe_factory ≡ ok r.proxy_wallet
    pub hashed :
        create_safe_struct_hash eth args.chain_id r.proxy_wallet transaction r.nonce ≡ ok hash
    pub signed : s.sign_message hash ≡ ok sig
    pub recovery : HasRecoveryBit (last_byte sig) bit
    pub carried : r.signature ≡ eth.hexutil_encode (take 64 sig ++ ((31 + bit) ∷ []))
    pub to : r.to ≡ transaction.to
    pub payload : r.payload ≡ transaction.payload
    pub operation : r.signature_params.operation ≡ format_nat transaction.operation
    pub from : r.from ≡ args.from
    pub nonce : r.nonce ≡ args.nonce
    pub kind : r.kind ≡ transaction_type_safe

  -- the struct that the arguments make up
  abbrev pub args_struct : ProxyTransactionArgs → ProxyContractConfig → ProxyStruct
  args_struct args config = record {
    from = args.from;
    to = config.proxy_factory;
    payload = args.payload;
    tx_fee = codes "0";
    gas_price = args.gas_price;
    gas_limit = gas_limit_or_default eth s config.proxy_factory args;
    nonce = args.nonce;
    relay_hub = config.relay_hub;
    relay = args.relay;
  }

  build_proxy_lem :
      (args : ProxyTransactionArgs) (config : ProxyContractConfig) (metadata : Text)
      (r : TransactionRequest)
      → build_proxy_transaction_request eth s args config metadata ≡ ok r
      → ProxySigned r × (struct_of r ≡ args_struct args config)
  unfolding build_proxy_transaction_request
  build_proxy_lem args config metadata r h =
      let (wallet, p, h1) = >>=-eq-ok _ _ h in
      let (hash, q, h2) = >>=-eq-ok _ _ h1 in
      let (sig, t, h3) = >>=-eq-ok _ _ h2 in
      let e = ok-injective h3 in
      rw (← e) (
        record {
          hash = hash;
          sig = sig;
          hashed = q;
          signed = wrap_error-eq-ok _ _ t;
          carried = refl;
          wallet = p;
          kind = refl;
        },
        refl,
      )

  -- A proxy request that is built carries the signature of the struct that its own fields make up.
  pub build_proxy-ProxySigned :
      (args : ProxyTransactionArgs) (config : ProxyContractConfig) (metadata : Text)
      (r : TransactionRequest)
      → build_proxy_transaction_request eth s args config metadata ≡ ok r
      → ProxySigned r
  build_proxy-ProxySigned args config metadata r h = (build_proxy_lem args config metadata r h).0

  -- These are the arguments.
  pub build_proxy_struct :
      (args : ProxyTransactionArgs) (config : ProxyContractConfig) (metadata : Text)
      (r : TransactionRequest)
      → build_proxy_transaction_request eth s args config metadata ≡ ok r
      → struct_of r ≡ args_struct args config
  build_proxy_struct args config metadata r h = (build_proxy_lem args config metadata r h).1

  -- A Safe request that is built carries the packed signature of the transaction that it submits, at
  -- the Safe of its sender.
  pub build_safe-SafeSigned :
      (args : SafeTransactionArgs) (config : SafeContractConfig) (metadata : Text)
      (r : TransactionRequest)
      → build_safe_transaction_request eth s args config metadata ≡ ok r
      → SafeSigned args config r
  unfolding build_safe_transaction_request
  build_safe-SafeSigned args config metadata r h =
      let (transaction, a, h1) = >>=-eq-ok _ _ h in
      let (wallet, p, h2) = >>=-eq-ok _ _ h1 in
      let (hash, q, h3) = >>=-eq-ok _ _ h2 in
      let (sig, t, h4) = >>=-eq-ok _ _ h3 in
      let (packed, u, h5) = >>=-eq-ok _ _ h4 in
      let (bit, size, recovery, carried) = split_and_pack_sig_sound eth sig packed u in
      let e = ok-injective h5 in
      rw (← e) (record {
        transaction = transaction;
        hash = hash;
        sig = sig;
        bit = bit;
        aggregated = a;
        wallet = p;
        hashed = q;
        signed = wrap_error-eq-ok _ _ t;
        recovery = recovery;
        carried = carried;
        to = refl;
        payload = refl;
        operation = refl;
        from = refl;
        nonce = refl;
        kind = refl;
      })

  -- The request that creates a Safe names its kind and the Safe of its sender.
  pub build_safe_create_lem :
      (args : SafeCreateTransactionArgs) (config : SafeContractConfig) (r : TransactionRequest)
      → build_safe_create_transaction_request eth s config args ≡ ok r
      → (r.kind ≡ transaction_type_safe_create)
        × (derive_safe_address eth r.from config.safe_factory ≡ ok r.proxy_wallet)
  unfolding build_safe_create_transaction_request
  build_safe_create_lem args config r h =
      let wallet = derive_safe_address eth args.from config.safe_factory in
      let paid = wrap_error (codes "invalid payment: ") (parse_big_int args.payment) in
      let (payment, _, h1) = >>=-eq-ok paid _ h in
      let signed =
        wrap_error (codes "sign safe create: ")
          (s.sign_typed_data (create_proxy_data config.safe_factory args payment)) in
      let (sig, _, h2) = >>=-eq-ok signed _ h1 in
      let (safe, derived, h3) = >>=-eq-ok wallet _ h2 in
      let e = ok-injective h3 in rw (← e) (refl, derived)
