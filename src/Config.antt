-- ===== src/Config.antt =====
-- config.go: the contracts of the supported chains.
use go_builder_relayer_clien.Prelude.{Bool, ◌&&◌, codes, is_empty, not, ◌==◌, if◌then◌else◌}
use go_builder_relayer_clien.Prelude.Int.{ℤ, pos, negsuc}
use go_builder_relayer_clien.Errors.{Result, ok, err, sdk}
use go_builder_relayer_clien.Errors.Predefined.{err_config_unsupported}
use go_builder_relayer_clien.Types.{ProxyContractConfig, SafeContractConfig, ContractConfig}

abbrev pub amoy_config : ContractConfig
amoy_config = record {
  proxy_contracts = record { relay_hub = codes ""; proxy_factory = codes "" };
  safe_contracts = record {
    safe_factory = codes "0xaacFeEa03eb1561C4e67d661e40682Bd20E3541b";
    safe_multisend = codes "0xA238CBeb142c10Ef7Ad8442C6D1f9E89e07e7761";
  };
}

abbrev pub polygon_config : ContractConfig
polygon_config = record {
  proxy_contracts = record {
    relay_hub = codes "0xD216153c06E857cD7f72665E0aF1d7D82172F494";
    proxy_factory = codes "0xaB45c5A4B0c941a2F231C04C3f49182e1A254052";
  };
  safe_contracts = record {
    safe_factory = codes "0xaacFeEa03eb1561C4e67d661e40682Bd20E3541b";
    safe_multisend = codes "0xA238CBeb142c10Ef7Ad8442C6D1f9E89e07e7761";
  };
}

abbrev pub is_proxy_contract_config_valid : ProxyContractConfig → Bool
is_proxy_contract_config_valid c = not (is_empty c.relay_hub) && not (is_empty c.proxy_factory)

abbrev pub is_safe_contract_config_valid : SafeContractConfig → Bool
is_safe_contract_config_valid c = not (is_empty c.safe_factory) && not (is_empty c.safe_multisend)

unfoldable pub get_contract_config : ℤ → Result ContractConfig
get_contract_config (negsuc _) = err (sdk err_config_unsupported)
get_contract_config (pos n) =
    if n == 137
    then ok polygon_config
    else if n == 80002
    then ok amoy_config
    else err (sdk err_config_unsupported)
