-- ===== src/Ethereum.antt =====
-- What the program calls of go-ethereum, which is not part of the repository: a record of functions
-- that the definitions take as a parameter, and the documented facts that proofs rely on.
use go_builder_relayer_clien.Prelude.{ℕ, ◌≡◌, List, Text, Bytes, IsBytes, length}
use go_builder_relayer_clien.Prelude.Int.{ℤ}
use go_builder_relayer_clien.Errors.{Result, ok}

-- the proxyCall of internal/encoder/encode_proxy.go
pub record ProxyCall : Type 0 where
  pub type_code : ℕ
  pub to : Bytes
  pub value : ℤ
  pub payload : Bytes

-- a value of an apitypes.TypedDataMessage
pub data Field : Type 0 where
  text : Text → Field
  integer : ℤ → Field

-- apitypes.TypedDataDomain: a field that is not set is empty
pub record Domain : Type 0 where
  pub name : Text
  pub chain_id : ℤ
  pub verifying_contract : Text

-- apitypes.TypedData; a type is a list of pairs of a name and a type
pub record TypedData : Type 0 where
  pub types : List (Text × List (Text × Text))
  pub primary_type : Text
  pub domain : Domain
  pub message : List (Text × Field)

-- ethereum.CallMsg, of which three fields are set
pub record CallMsg : Type 0 where
  pub from : Bytes
  pub to : Bytes
  pub payload : Bytes

pub record Ethereum : Type 0 where
  -- common.HexToAddress(s).Bytes(), common.Address.Hex
  pub hex_to_address : Text → Bytes
  pub address_hex : Bytes → Text
  -- common.LeftPadBytes, common.BytesToHash(b).Bytes()
  pub left_pad_bytes : Bytes → ℕ → Bytes
  pub bytes_to_hash : Bytes → Bytes
  -- crypto.Keccak256, crypto.CreateAddress2
  pub keccak256 : Bytes → Bytes
  pub create_address2 : Bytes → Bytes → Bytes → Bytes
  -- hexutil.Decode, hexutil.Encode
  pub hexutil_decode : Text → Result Bytes
  pub hexutil_encode : Bytes → Text
  -- abi.ABI.Pack of the methods multiSend(bytes) and proxy((uint8,address,uint256,bytes)[])
  pub pack_multi_send : Bytes → Result Bytes
  pub pack_proxy : List ProxyCall → Result Bytes
  -- apitypes.TypedDataAndHash
  pub typed_data_hash : TypedData → Result Bytes

-- An address has 20 bytes.
pub record HasAddresses (eth : Ethereum) : Type 0 where
  pub address-length : (t : Text) → length (eth.hex_to_address t) ≡ 20

-- Hexadecimal text that hexutil wrote is read back.
pub record ReadsBack (eth : Ethereum) : Type 0 where
  pub decode-encode : (b : Bytes) → IsBytes b → eth.hexutil_decode (eth.hexutil_encode b) ≡ ok b
