-- ===== src/Examples/Setup.antt =====
-- examples/basic/main.go and examples/end_to_end/main.go, up to their first requests. A panic is an
-- error.
use go_builder_relayer_clien.Prelude.{
  false, ◌||◌, not, Option, none, some, Text, codes, is_empty, if◌then◌else◌,
}
use go_builder_relayer_clien.Prelude.Int.{ℤ}
use go_builder_relayer_clien.Golang.ParseInt.{Failure, parse_int, failure_text}
use go_builder_relayer_clien.Errors.{Error, plain, foreign, Result, ok, err, ◌>>=◌}
use go_builder_relayer_clien.Types.{Transaction, relayer_tx_safe}
use go_builder_relayer_clien.Ethereum.{Ethereum}
use go_builder_relayer_clien.Signer.{Curve, new_private_key_signer, as_signer}
use go_builder_relayer_clien.BuilderAuth.{BuilderConfig, is_valid}
use go_builder_relayer_clien.Client.{RelayClient, new_relay_client, derive_safe_address_on}
use go_builder_relayer_clien.Examples.Environment.{Getenv}

-- the transaction of both programs: nothing is sent to the contract of USDC
abbrev pub usdc : Transaction
usdc = record {
  to = codes "0x2791Bca1f2de4661ED88A30C99A7a9449Aa84174";
  payload = codes "0x";
  value = codes "0";
}

-- buildBuilderConfig
unfoldable pub build_builder_config : Getenv → Option BuilderConfig
build_builder_config getenv =
    let host = getenv (codes "BUILDER_REMOTE_HOST") in
    let key = getenv (codes "BUILDER_API_KEY") in
    let secret = getenv (codes "BUILDER_SECRET") in
    let passphrase = getenv (codes "BUILDER_PASS_PHRASE") in
    if not (is_empty host)
    then some (record {
      local = none;
      remote = some (record { host = host; token = getenv (codes "BUILDER_REMOTE_TOKEN") });
      remote_fallback_local = false;
    })
    else if is_empty key || (is_empty secret || is_empty passphrase)
    then none
    else some (record {
      local = some (record { key = key; secret = secret; passphrase = passphrase });
      remote = none;
      remote_fallback_local = false;
    })

-- the configuration of basic, which may not be valid
unfoldable pub basic_builder_config : Getenv → BuilderConfig
basic_builder_config getenv =
    let host = getenv (codes "BUILDER_REMOTE_HOST") in
    if not (is_empty host)
    then record {
      local = none;
      remote = some (record { host = host; token = getenv (codes "BUILDER_REMOTE_TOKEN") });
      remote_fallback_local = false;
    }
    else record {
      local = some (record {
        key = getenv (codes "BUILDER_API_KEY");
        secret = getenv (codes "BUILDER_SECRET");
        passphrase = getenv (codes "BUILDER_PASS_PHRASE");
      });
      remote = none;
      remote_fallback_local = false;
    }

-- err of a pair (value, err)
abbrev pub parsed_or : ℤ × Option Failure → Result ℤ
parsed_or (n, none) = ok n
parsed_or (n, some e) = err (foreign (failure_text e))

abbrev pub no_builder : Error
no_builder = plain (
    codes "builder authentication is required: set BUILDER_REMOTE_HOST or local BUILDER_* env vars")

abbrev pub required : Option BuilderConfig → Result BuilderConfig
required none = err no_builder
required (some config) = ok config

module _ (eth : Ethereum) (curve : Curve) (getenv : Getenv) where
  -- end_to_end up to its first request: the client, and the Safe of the signer
  unfoldable pub end_to_end_setup : Result (RelayClient × Text)
  unfolding parse_int build_builder_config
  end_to_end_setup =
      let relayer_url = getenv (codes "POLYMARKET_RELAYER_URL") in
      let chain = getenv (codes "CHAIN_ID") in
      let private_key = getenv (codes "PRIVATE_KEY") in
      if is_empty relayer_url || (is_empty chain || is_empty private_key)
      then err (plain (codes "POLYMARKET_RELAYER_URL, CHAIN_ID, PRIVATE_KEY are required"))
      else (do
        chain_id ← parsed_or (parse_int chain)
        signer ← new_private_key_signer eth curve private_key chain_id
        config ← required (build_builder_config getenv)
        client ←
            new_relay_client relayer_url chain_id (some (as_signer eth curve signer)) (some config)
              relayer_tx_safe
        safe ← derive_safe_address_on eth chain_id (eth.address_hex signer.address)
        ok (client, safe))

  -- basic up to its first request; the error of ParseInt is dropped
  unfoldable pub basic_setup : Result RelayClient
  unfolding parse_int basic_builder_config is_valid
  basic_setup =
      let chain_id = (parse_int (getenv (codes "CHAIN_ID"))).0 in
      let config = basic_builder_config getenv in
      new_private_key_signer eth curve (getenv (codes "PRIVATE_KEY")) chain_id >>= λ signer.
      if not (is_valid (some config))
      then err no_builder
      else new_relay_client (getenv (codes "POLYMARKET_RELAYER_URL")) chain_id
          (some (as_signer eth curve signer)) (some config) relayer_tx_safe
