-- ===== src/Builder.antt =====
-- internal/builder: addresses, and the three kinds of relayer requests.
pub mod ProxyHash
pub mod Signed
pub mod Gas
use go_builder_relayer_clien.Prelude.{
  ℕ, ◌&&◌, List, [], ◌∷◌, ◌++◌, Text, Bytes, codes, is_empty, not, text_eq, if◌then◌else◌,
}
use go_builder_relayer_clien.Prelude.Int.{ℤ, pos}
use go_builder_relayer_clien.Golang.BigInt.{big_bytes}
use go_builder_relayer_clien.Golang.Strconv.{format_nat}
use go_builder_relayer_clien.Errors.{Result, ok, err, sdk, ◌>>=◌, wrap_error}
use go_builder_relayer_clien.Errors.Predefined.{err_config_unsupported}
use go_builder_relayer_clien.Types.{
  SafeTransaction, SafeTransactionArgs, SafeCreateTransactionArgs, ProxyTransactionArgs,
  SafeContractConfig, ProxyContractConfig, TransactionRequest, empty_signature_params,
  safe_init_code_hash, proxy_init_code_hash, safe_factory_name, zero_address, transaction_type_safe,
  transaction_type_proxy, transaction_type_safe_create,
}
use go_builder_relayer_clien.Ethereum.{Ethereum, TypedData, text, integer}
use go_builder_relayer_clien.Utils.{parse_big_int, decode_hex, left_pad_32, split_and_pack_sig}
use go_builder_relayer_clien.Encoder.{create_safe_multisend_transaction}
use go_builder_relayer_clien.Signer.{Signer}

-- the types of the typed data that is signed, with the domain types
abbrev create_proxy_types : List (Text × List (Text × Text))
create_proxy_types =
    (
      codes "EIP712Domain",
      (codes "name", codes "string")
          ∷ (codes "chainId", codes "uint256")
          ∷ (codes "verifyingContract", codes "address")
          ∷ [],
    )
    ∷ (
      codes "CreateProxy",
      (codes "paymentToken", codes "address")
          ∷ (codes "payment", codes "uint256")
          ∷ (codes "paymentReceiver", codes "address")
          ∷ [],
    )
    ∷ []

abbrev safe_tx_types : List (Text × List (Text × Text))
safe_tx_types =
    (
      codes "EIP712Domain",
      (codes "chainId", codes "uint256") ∷ (codes "verifyingContract", codes "address") ∷ [],
    )
    ∷ (
      codes "SafeTx",
      (codes "to", codes "address")
          ∷ (codes "value", codes "uint256")
          ∷ (codes "data", codes "bytes")
          ∷ (codes "operation", codes "uint8")
          ∷ (codes "safeTxGas", codes "uint256")
          ∷ (codes "baseGas", codes "uint256")
          ∷ (codes "gasPrice", codes "uint256")
          ∷ (codes "gasToken", codes "address")
          ∷ (codes "refundReceiver", codes "address")
          ∷ (codes "nonce", codes "uint256")
          ∷ [],
    )
    ∷ []

-- the typed data of BuildSafeCreateTransactionRequest
unfoldable pub create_proxy_data : Text → SafeCreateTransactionArgs → ℤ → TypedData
create_proxy_data safe_factory args payment = record {
  types = create_proxy_types;
  primary_type = codes "CreateProxy";
  domain = record {
    name = safe_factory_name;
    chain_id = args.chain_id;
    verifying_contract = safe_factory;
  };
  message =
      (codes "paymentToken", text args.payment_token)
      ∷ (codes "payment", integer payment)
      ∷ (codes "paymentReceiver", text args.payment_receiver)
      ∷ [];
}

-- the typed data of createSafeStructHash
unfoldable pub safe_tx_data : ℤ → Text → SafeTransaction → ℤ → ℤ → TypedData
safe_tx_data chain_id safe_address txn value nonce = record {
  types = safe_tx_types;
  primary_type = codes "SafeTx";
  domain = record { name = codes ""; chain_id = chain_id; verifying_contract = safe_address };
  message =
      (codes "to", text txn.to)
      ∷ (codes "value", integer value)
      ∷ (codes "data", text txn.payload)
      ∷ (codes "operation", integer (pos txn.operation))
      ∷ (codes "safeTxGas", integer (pos 0))
      ∷ (codes "baseGas", integer (pos 0))
      ∷ (codes "gasPrice", integer (pos 0))
      ∷ (codes "gasToken", text zero_address)
      ∷ (codes "refundReceiver", text zero_address)
      ∷ (codes "nonce", integer nonce)
      ∷ [];
}

-- the arguments of createProxyStructHash
pub record ProxyStruct : Type 0 where
  pub from : Text
  pub to : Text
  pub payload : Text
  pub tx_fee : Text
  pub gas_price : Text
  pub gas_limit : Text
  pub nonce : Text
  pub relay_hub : Text
  pub relay : Text

abbrev pub default_gas_limit : ℕ
default_gas_limit = 10_000_000

module _ (eth : Ethereum) where
  unfoldable pub derive_proxy_wallet_address : Text → Text → Result Text
  derive_proxy_wallet_address eoa proxy_factory =
      if is_empty proxy_factory then err (sdk err_config_unsupported) else do
        let salt = eth.keccak256 (eth.hex_to_address eoa)
        init_code_hash ←
            wrap_error (codes "invalid proxy init code hash: ")
              (eth.hexutil_decode proxy_init_code_hash)
        ok (
            eth.address_hex (
              eth.create_address2 (eth.hex_to_address proxy_factory) (eth.bytes_to_hash salt)
                init_code_hash))

  unfoldable pub derive_safe_address : Text → Text → Result Text
  derive_safe_address eoa safe_factory =
      if is_empty safe_factory then err (sdk err_config_unsupported) else do
        let salt = eth.keccak256 (eth.left_pad_bytes (eth.hex_to_address eoa) 32)
        init_code_hash ←
            wrap_error (codes "invalid safe init code hash: ")
              (eth.hexutil_decode safe_init_code_hash)
        ok (
            eth.address_hex (
              eth.create_address2 (eth.hex_to_address safe_factory) (eth.bytes_to_hash salt)
                init_code_hash))

  unfoldable pub build_safe_create_transaction_request :
      Signer → SafeContractConfig → SafeCreateTransactionArgs → Result TransactionRequest
  build_safe_create_transaction_request s config args = do
    payment ← wrap_error (codes "invalid payment: ") (parse_big_int args.payment)
    sig ←
        wrap_error (codes "sign safe create: ")
          (s.sign_typed_data (create_proxy_data config.safe_factory args payment))
    safe_address ← derive_safe_address args.from config.safe_factory
    ok (record {
      kind = transaction_type_safe_create;
      from = args.from;
      to = config.safe_factory;
      proxy_wallet = safe_address;
      payload = codes "0x";
      nonce = codes "";
      signature = eth.hexutil_encode sig;
      signature_params = record empty_signature_params {
        payment_token = args.payment_token;
        payment = args.payment;
        payment_receiver = args.payment_receiver;
      };
      metadata = codes "";
    })

  -- aggregateSafeTransactions
  unfoldable pub aggregate_safe_transactions : List SafeTransaction → Text → Result SafeTransaction
  aggregate_safe_transactions (tx ∷ []) safe_multisend = ok tx
  aggregate_safe_transactions txns safe_multisend =
      create_safe_multisend_transaction eth txns safe_multisend

  unfoldable pub create_safe_struct_hash : ℤ → Text → SafeTransaction → Text → Result Bytes
  create_safe_struct_hash chain_id safe_address txn nonce = do
    value ← wrap_error (codes "invalid value: ") (parse_big_int txn.value)
    nonce_int ← wrap_error (codes "invalid nonce: ") (parse_big_int nonce)
    wrap_error (codes "hash safe tx: ")
        (eth.typed_data_hash (safe_tx_data chain_id safe_address txn value nonce_int))

  unfoldable pub build_safe_transaction_request :
      Signer → SafeTransactionArgs → SafeContractConfig → Text → Result TransactionRequest
  build_safe_transaction_request s args config metadata = do
    transaction ← aggregate_safe_transactions args.transactions config.safe_multisend
    safe_address ← derive_safe_address args.from config.safe_factory
    struct_hash ← create_safe_struct_hash args.chain_id safe_address transaction args.nonce
    sig ← wrap_error (codes "sign safe tx: ") (s.sign_message struct_hash)
    packed_sig ← split_and_pack_sig eth sig
    ok (record {
      kind = transaction_type_safe;
      from = args.from;
      to = transaction.to;
      proxy_wallet = safe_address;
      payload = transaction.payload;
      nonce = args.nonce;
      signature = packed_sig;
      signature_params = record empty_signature_params {
        gas_price = codes "0";
        operation = format_nat transaction.operation;
        safe_txn_gas = codes "0";
        base_gas = codes "0";
        gas_token = zero_address;
        refund_receiver = zero_address;
      };
      metadata = metadata;
    })

  -- the bytes that createProxyStructHash hashes
  unfoldable pub proxy_struct_bytes : ProxyStruct → Result Bytes
  proxy_struct_bytes p = do
    payload ← wrap_error (codes "decode data: ") (decode_hex eth p.payload)
    tx_fee ← wrap_error (codes "invalid txFee: ") (parse_big_int p.tx_fee)
    gas_price ← wrap_error (codes "invalid gasPrice: ") (parse_big_int p.gas_price)
    gas_limit ← wrap_error (codes "invalid gasLimit: ") (parse_big_int p.gas_limit)
    nonce ← wrap_error (codes "invalid nonce: ") (parse_big_int p.nonce)
    ok (
        codes "rlx:"
        ++ (eth.hex_to_address p.from
            ++ (eth.hex_to_address p.to
                ++ (payload
                    ++ (left_pad_32 (big_bytes tx_fee)
                        ++ (left_pad_32 (big_bytes gas_price)
                            ++ (left_pad_32 (big_bytes gas_limit)
                                ++ (left_pad_32 (big_bytes nonce)
                                    ++ (eth.hex_to_address p.relay_hub
                                        ++ eth.hex_to_address p.relay)))))))))

  unfoldable pub create_proxy_struct_hash : ProxyStruct → Result Bytes
  create_proxy_struct_hash p = do
    data_to_hash ← proxy_struct_bytes p
    ok (eth.keccak256 data_to_hash)

  unfoldable pub get_gas_limit : Signer → Text → ProxyTransactionArgs → Result Text
  unfolding text_eq
  get_gas_limit s to args =
      if not (is_empty args.gas_limit) && not (text_eq args.gas_limit (codes "0"))
      then ok args.gas_limit
      else do
        data_bytes ← decode_hex eth args.payload
        gas_limit ← s.estimate_gas (record {
          from = eth.hex_to_address args.from;
          to = eth.hex_to_address to;
          payload = data_bytes;
        })
        ok (format_nat gas_limit)

  -- gasLimitStr of BuildProxyTransactionRequest: the default where the estimate fails
  unfoldable pub gas_limit_or_default : Signer → Text → ProxyTransactionArgs → Text
  gas_limit_or_default s to args = elim (get_gas_limit s to args) [
    | ok t ↦ t
    | err _ ↦ format_nat default_gas_limit
  ]

  unfoldable pub build_proxy_transaction_request :
      Signer → ProxyTransactionArgs → ProxyContractConfig → Text → Result TransactionRequest
  build_proxy_transaction_request s args config metadata = do
    proxy_wallet ← derive_proxy_wallet_address args.from config.proxy_factory
    let gas_limit = gas_limit_or_default s config.proxy_factory args
    tx_hash ← create_proxy_struct_hash (record {
      from = args.from;
      to = config.proxy_factory;
      payload = args.payload;
      tx_fee = codes "0";
      gas_price = args.gas_price;
      gas_limit = gas_limit;
      nonce = args.nonce;
      relay_hub = config.relay_hub;
      relay = args.relay;
    })
    sig ← wrap_error (codes "sign proxy tx: ") (s.sign_message tx_hash)
    ok (record {
      kind = transaction_type_proxy;
      from = args.from;
      to = config.proxy_factory;
      proxy_wallet = proxy_wallet;
      payload = args.payload;
      nonce = args.nonce;
      signature = eth.hexutil_encode sig;
      signature_params = record empty_signature_params {
        gas_price = args.gas_price;
        gas_limit = gas_limit;
        relayer_fee = codes "0";
        relay_hub = config.relay_hub;
        relay = args.relay;
      };
      metadata = metadata;
    })
