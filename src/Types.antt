-- ===== src/Types.antt =====
-- pkg/types: constants and the records that the parts of the client exchange.
use go_builder_relayer_clien.Prelude.{ℕ, List, Bool, Text, codes}
use go_builder_relayer_clien.Prelude.Int.{ℤ}

abbrev pub safe_init_code_hash : Text
safe_init_code_hash = codes "0x2bce2127ff07fb632d16c8347c4ebf501f4841168bed00d9e6ef715ddb6fcecf"

abbrev pub proxy_init_code_hash : Text
proxy_init_code_hash = codes "0xd21df8dc65880a8606f09fe0ce3df9b8869287ab0b058be05aa9e8af6330a00b"

abbrev pub safe_factory_name : Text
safe_factory_name = codes "Polymarket Contract Proxy Factory"

abbrev pub zero_address : Text
zero_address = codes "0x0000000000000000000000000000000000000000"

-- RelayerTxType
abbrev pub relayer_tx_safe : Text
relayer_tx_safe = codes "SAFE"

abbrev pub relayer_tx_proxy : Text
relayer_tx_proxy = codes "PROXY"

-- TransactionType
abbrev pub transaction_type_safe : Text
transaction_type_safe = codes "SAFE"

abbrev pub transaction_type_proxy : Text
transaction_type_proxy = codes "PROXY"

abbrev pub transaction_type_safe_create : Text
transaction_type_safe_create = codes "SAFE-CREATE"

pub record SignatureParams : Type 0 where
  pub gas_price : Text
  pub relayer_fee : Text
  pub gas_limit : Text
  pub relay_hub : Text
  pub relay : Text
  pub operation : Text
  pub safe_txn_gas : Text
  pub base_gas : Text
  pub gas_token : Text
  pub refund_receiver : Text
  pub payment_token : Text
  pub payment : Text
  pub payment_receiver : Text

-- SignatureParams{}
abbrev pub empty_signature_params : SignatureParams
empty_signature_params = record {
  gas_price = codes "";
  relayer_fee = codes "";
  gas_limit = codes "";
  relay_hub = codes "";
  relay = codes "";
  operation = codes "";
  safe_txn_gas = codes "";
  base_gas = codes "";
  gas_token = codes "";
  refund_receiver = codes "";
  payment_token = codes "";
  payment = codes "";
  payment_receiver = codes "";
}

pub record NoncePayload : Type 0 where
  pub nonce : Text

pub record RelayPayload : Type 0 where
  pub address : Text
  pub nonce : Text

pub record TransactionRequest : Type 0 where
  pub kind : Text
  pub from : Text
  pub to : Text
  pub proxy_wallet : Text
  pub payload : Text
  pub nonce : Text
  pub signature : Text
  pub signature_params : SignatureParams
  pub metadata : Text

-- CallType, a uint8
abbrev pub call_type_call : ℕ
call_type_call = 1

pub record ProxyTransaction : Type 0 where
  pub to : Text
  pub type_code : ℕ
  pub payload : Text
  pub value : Text

-- OperationType, a uint8
abbrev pub operation_call : ℕ
operation_call = 0

abbrev pub operation_delegate_call : ℕ
operation_delegate_call = 1

pub record SafeTransaction : Type 0 where
  pub to : Text
  pub operation : ℕ
  pub payload : Text
  pub value : Text

pub record Transaction : Type 0 where
  pub to : Text
  pub payload : Text
  pub value : Text

pub record SafeTransactionArgs : Type 0 where
  pub from : Text
  pub nonce : Text
  pub chain_id : ℤ
  pub transactions : List SafeTransaction

pub record SafeCreateTransactionArgs : Type 0 where
  pub from : Text
  pub chain_id : ℤ
  pub payment_token : Text
  pub payment : Text
  pub payment_receiver : Text

pub record ProxyTransactionArgs : Type 0 where
  pub from : Text
  pub nonce : Text
  pub gas_price : Text
  pub gas_limit : Text
  pub payload : Text
  pub relay : Text

-- RelayerTransactionState
abbrev pub state_new : Text
state_new = codes "STATE_NEW"

abbrev pub state_executed : Text
state_executed = codes "STATE_EXECUTED"

abbrev pub state_mined : Text
state_mined = codes "STATE_MINED"

abbrev pub state_invalid : Text
state_invalid = codes "STATE_INVALID"

abbrev pub state_confirmed : Text
state_confirmed = codes "STATE_CONFIRMED"

abbrev pub state_failed : Text
state_failed = codes "STATE_FAILED"

-- The times stand as nanoseconds.
pub record RelayerTransaction : Type 0 where
  pub transaction_id : Text
  pub transaction_hash : Text
  pub from : Text
  pub to : Text
  pub proxy_address : Text
  pub payload : Text
  pub nonce : Text
  pub value : Text
  pub state : Text
  pub kind : Text
  pub metadata : Text
  pub created_at : ℤ
  pub updated_at : ℤ

pub record RelayerTransactionResponse : Type 0 where
  pub transaction_id : Text
  pub state : Text
  pub hash : Text
  pub transaction_hash : Text

pub record GetDeployedResponse : Type 0 where
  pub deployed : Bool

pub record ProxyContractConfig : Type 0 where
  pub relay_hub : Text
  pub proxy_factory : Text

pub record SafeContractConfig : Type 0 where
  pub safe_factory : Text
  pub safe_multisend : Text

pub record ContractConfig : Type 0 where
  pub proxy_contracts : ProxyContractConfig
  pub safe_contracts : SafeContractConfig
