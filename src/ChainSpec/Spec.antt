-- ===== src/ChainSpec/Spec.antt =====
-- `Alternative::load` of src/chain_spec.rs: the specification of each chain.
use riochain.Prelude.{ℕ, Option, none, some, String, List, [], ◌∷◌}
use riochain.Assets.Types.{AccountId}
use riochain.Runtime.Genesis.{GenesisConfig}
use riochain.ChainSpec.Alternative.{Alternative, chain_type}
use riochain.ChainSpec.Genesis.{Keys, get_authority_keys_from_seed, testnet_genesis, beta_genesis}

-- The arguments of `ChainSpec::from_genesis`. The properties are the text that is parsed as JSON;
-- the consensus engine and the extensions are `None` in every call.
pub record ChainSpec : Type 0 where
  pub name : String
  pub id : String
  pub genesis : GenesisConfig
  pub boot_nodes : List String
  pub telemetry_endpoints : Option (List (String × ℕ))
  pub protocol_id : Option String
  pub properties : Option String

abbrev pub default_properties_mainnet : String
default_properties_mainnet =
    "\n{\n\"tokenSymbol\": \"RFUEL\",\n\"tokenDecimals\": 8,\n\"ss58Format\": 42\n}\n"

abbrev pub default_properties_testnet : String
default_properties_testnet =
    "\n{\n\"tokenSymbol\": \"RFUEL\",\n\"tokenDecimals\": 8,\n\"ss58Format\": 42\n}\n"

module _ (keys : Keys) where
  -- The accounts of the two local networks.
  abbrev development_accounts : List AccountId
  development_accounts =
      keys.get_account_id_from_seed "Alice"
      ∷ keys.get_account_id_from_seed "Bob"
      ∷ keys.get_account_id_from_seed "Alice//stash"
      ∷ keys.get_account_id_from_seed "Bob//stash"
      ∷ []

  abbrev testnet_accounts : List AccountId
  testnet_accounts =
      keys.get_account_id_from_seed "Alice"
      ∷ keys.get_account_id_from_seed "Bob"
      ∷ keys.get_account_id_from_seed "Charlie"
      ∷ keys.get_account_id_from_seed "Dave"
      ∷ keys.get_account_id_from_seed "Eve"
      ∷ keys.get_account_id_from_seed "Ferdie"
      ∷ keys.get_account_id_from_seed "Alice//stash"
      ∷ keys.get_account_id_from_seed "Bob//stash"
      ∷ keys.get_account_id_from_seed "Charlie//stash"
      ∷ keys.get_account_id_from_seed "Dave//stash"
      ∷ keys.get_account_id_from_seed "Eve//stash"
      ∷ keys.get_account_id_from_seed "Ferdie//stash"
      ∷ []

  unfoldable pub genesis : Alternative → GenesisConfig
  unfolding testnet_genesis beta_genesis get_authority_keys_from_seed
  genesis Alternative.development =
      testnet_genesis keys (get_authority_keys_from_seed keys "Alice" ∷ [])
        (keys.get_account_id_from_seed "Alice") development_accounts
  genesis Alternative.local_testnet =
      testnet_genesis keys
        (get_authority_keys_from_seed keys "Alice" ∷ get_authority_keys_from_seed keys "Bob" ∷ [])
        (keys.get_account_id_from_seed "Alice") testnet_accounts
  genesis Alternative.testnet =
      testnet_genesis keys
        (get_authority_keys_from_seed keys "Alice" ∷ get_authority_keys_from_seed keys "Bob" ∷ [])
        (keys.get_account_id_from_seed "Alice") testnet_accounts
  genesis Alternative.beta =
      beta_genesis keys
        ((
          keys.aura_of_hex "3c748c52c521a8ccb85a0c5ee8f9479d45cb0348b5022ce97f35363689f3a84e",
          keys.grandpa_of_hex "b3cd4432d77141225c98502e2a2a461486e3b01c25a61ee54e6761c7c31570a8",
        )
          ∷ (
            keys.aura_of_hex "328f2204c644361866c92996fc5acffc67e86e6da1af358b38a3de3241bfa276",
            keys.grandpa_of_hex "a47355db185f4de899055d90f0b6889fb080dd4e5c310a62390d760bc3602c9a",
          )
          ∷ (
            keys.aura_of_hex "78f7655aa22a8f6b54fb7fea4e62f11f365dd67703bf0b5b3ed8338a10373b19",
            keys.grandpa_of_hex "60e004988514b9075192585ea8acb70652df7928d4f04a1175067b294510d8eb",
          )
          ∷ [])
        (keys.account_of_hex "20cd1afa4f95b59b7f61a97360e8bc74a26a6fc13712e6f2eef3a1e020bbcd68")
        (keys.account_of_hex "167056fa07ae7bc1d36da5520dd8c4c06cb5a5db557986f0c6ae2af0030d4c44"
          ∷ keys.account_of_hex "b4f179ee3e5e2498eb6d59d1d899bcb0157a917f9cfd8523101e4f78c8a52050"
          ∷ [])

  -- The map has every alternative, so that `load` never fails.
  unfoldable pub load : Alternative → ChainSpec
  unfolding genesis
  load Alternative.development = record {
    name = (chain_type Alternative.development).0;
    id = (chain_type Alternative.development).1;
    genesis = genesis Alternative.development;
    boot_nodes = [];
    telemetry_endpoints = none;
    protocol_id = none;
    properties = some default_properties_testnet;
  }
  load Alternative.local_testnet = record {
    name = (chain_type Alternative.local_testnet).0;
    id = (chain_type Alternative.local_testnet).1;
    genesis = genesis Alternative.local_testnet;
    boot_nodes = [];
    telemetry_endpoints = none;
    protocol_id = none;
    properties = some default_properties_testnet;
  }
  load Alternative.testnet = record {
    name = (chain_type Alternative.testnet).0;
    id = (chain_type Alternative.testnet).1;
    genesis = genesis Alternative.testnet;
    boot_nodes =
        "/ip4/47.52.149.251/tcp/30101/p2p/QmRpheLN4JWdAnY7HGJfWFNbfkQCb6tFf4vvA6hgjMZKrR" ∷ [];
    telemetry_endpoints = some (("https://stats.staging.riodefi.com", 0) ∷ []);
    protocol_id = some "alpha";
    properties = some default_properties_testnet;
  }
  load Alternative.beta = record {
    name = (chain_type Alternative.beta).0;
    id = (chain_type Alternative.beta).1;
    genesis = genesis Alternative.beta;
    boot_nodes =
        "/ip4/47.244.206.150/tcp/30333/p2p/QmNh3WxHeGATKcEjRSv97HTT6UpmjFdzYSFpn2UeR2DFok" ∷ [];
    telemetry_endpoints = some (("https://stats.riochain.io", 0) ∷ []);
    protocol_id = some "beta";
    properties = some default_properties_mainnet;
  }
