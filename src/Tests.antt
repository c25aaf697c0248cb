-- ===== src/Tests.antt =====
-- Concrete surroundings for the examples: a relayer that is busy once, a signer, a client.
pub mod Library
pub mod Requests
pub mod Calls
pub mod Signing
pub mod Sessions
pub mod Programs
pub mod Logs
use go_builder_relayer_clien.Prelude.{
  ℕ, zero, suc, ◌+◌, ◌-◌, refl, arith, true, false, none, some, [], ◌∷◌, ◌++◌, Text, Bytes, codes,
  take, drop, replicate, length, length-append, length-take_le, length-replicate,
}
use go_builder_relayer_clien.Prelude.Int.{pos}
use go_builder_relayer_clien.Errors.{ok}
use go_builder_relayer_clien.Types.{
  RelayerTransaction, SafeTransaction, state_mined, relayer_tx_safe, operation_call,
}
use go_builder_relayer_clien.Ethereum.{Ethereum, HasAddresses}
use go_builder_relayer_clien.Signer.{Signer, Curve}
use go_builder_relayer_clien.Config.{polygon_config}
use go_builder_relayer_clien.Effects.{Reply, response, Host}
use go_builder_relayer_clien.Http.{HttpClient, RequestOptions}
use go_builder_relayer_clien.Http.Attempts.{exchanges}
use go_builder_relayer_clien.BuilderAuth.{BuilderCredentials, BuilderConfig}
use go_builder_relayer_clien.Client.{RelayClient}

abbrev pub chain : Ethereum
chain = record {
  hex_to_address = λ t. take 20 (t ++ replicate 20 0);
  address_hex = λ b. b;
  left_pad_bytes = λ b n. replicate (n - length b) 0 ++ b;
  bytes_to_hash = λ b. take 32 (b ++ replicate 32 0);
  keccak256 = λ b. take 32 (b ++ replicate 32 1);
  create_address2 = λ deployer salt code. deployer;
  hexutil_decode = λ t. ok (drop 2 t);
  hexutil_encode = λ b. codes "0x" ++ b;
  pack_multi_send = λ b. ok b;
  pack_proxy = λ calls. ok (length calls ∷ []);
  typed_data_hash = λ td. ok (take 32 (td.primary_type ++ replicate 32 2));
}

pub chain-HasAddresses : HasAddresses chain
chain-HasAddresses = record {
  address-length = λ t.
      length-take_le 20 (t ++ replicate 20 0)
        (omega (arith, length-append {0} t (replicate 20 0), length-replicate {A = ℕ} 20 0));
}

abbrev pub curve : Curve
curve = record {
  Key = Text;
  hex_to_ecdsa = λ t. ok t;
  pubkey_to_address = λ key. take 20 key;
  text_hash = λ b. take 32 b;
  sign = λ hash key. ok (replicate 64 9 ++ 1 ∷ []);
}

abbrev pub signature : Bytes
signature = replicate 64 9 ++ 27 ∷ []

abbrev pub alice : Signer
alice = record {
  address = replicate 20 1;
  chain_id = pos 137;
  sign_message = λ hash. ok signature;
  sign_typed_data = λ td. ok signature;
  estimate_gas = λ call. ok 21000;
}

abbrev pub mined : Text → RelayerTransaction
mined id = record {
  transaction_id = id;
  transaction_hash = codes "0xab";
  from = codes "";
  to = codes "";
  proxy_address = codes "";
  payload = codes "";
  nonce = codes "";
  value = codes "";
  state = state_mined;
  kind = codes "SAFE";
  metadata = codes "";
  created_at = pos 0;
  updated_at = pos 0;
}

-- busy at the first request of all, and well from then on
abbrev pub reply_of : ℕ → Reply
reply_of zero = response 503 [] (codes "busy")
reply_of (suc n) = response 200 [] (codes "7")

abbrev pub well : Host
well = record {
  round_trip = λ h req. reply_of (exchanges h);
  signer_trip = λ h req. response 503 [] (codes "busy");
  timer = λ h d. none;
  ctx_done = λ h. none;
  now = λ h. pos 1_700_000_000_000_000_000;
  parse_url = λ t. ok (record { base = t; raw_query = codes "" });
  url_string = λ u. u.base ++ u.raw_query;
  new_request = λ method target. ok tt;
  parse_time = λ t. none;
  hmac_sha256 = λ key t. replicate 32 5;
  marshal_request = λ r. ok r.signature;
  marshal_sign_payload = λ p. ok p.path;
  decode_signed = λ b end. ok [];
  decode_nonce = λ b. ok (record { nonce = b });
  decode_relay = λ b. ok (record { address = codes "0xrelay"; nonce = b });
  decode_transactions = λ b. ok (mined b ∷ []);
  decode_deployed = λ b. ok (record { deployed = true });
  decode_submitted = λ b.
      ok (record { transaction_id = b; state = codes "STATE_NEW"; hash = b; transaction_hash = b });
}

-- the same surroundings with a relayer that is always busy
abbrev pub busy : Host
busy = record well { round_trip = λ h req. response 503 [] (codes "busy") }

abbrev pub three_retries : HttpClient
three_retries = record { max_retries = 3; base_delay = pos 500_000_000 }

abbrev pub no_options : RequestOptions
no_options = record { headers = []; params = []; body = [] }

abbrev pub credentials : BuilderCredentials
credentials = record { key = codes "key"; secret = codes "c2VjcmV0"; passphrase = codes "pass" }

abbrev pub local_config : BuilderConfig
local_config = record { local = some credentials; remote = none; remote_fallback_local = false }

abbrev pub client : RelayClient
client = record {
  relayer_url = codes "https://relayer";
  chain_id = pos 137;
  relay_tx_type = relayer_tx_safe;
  contract_config = polygon_config;
  http_client = three_retries;
  signer = some alice;
  builder_config = some local_config;
}

abbrev pub transfer : SafeTransaction
transfer = record {
  to = codes "0xbob";
  operation = operation_call;
  payload = codes "0x12";
  value = codes "5";
}
