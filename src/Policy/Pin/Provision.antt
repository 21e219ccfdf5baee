-- ===== src/Policy/Pin/Provision.antt =====
-- What a provisioned pin of tesaurus-policy/src/pin.rs holds.
use tesaurus.Prelude.{ℕ, ◌≤◌, ◌≡◌, ◌≢◌, true, some, Bytes, arith, ok}
use tesaurus.Bitcoin.{Crates, Miniscript, Network, PublicKey}
use tesaurus.Policy.Pin.{AgentPin, is_test_network, compile_vault_descriptor, provision}

-- The pin of the vault of these keys on this network, with the locked constants of the protocol.
pub record IsLocked (ms : Miniscript) (lib : Crates) (network : Network)
    (primary override_key agent : PublicKey) (csv_blocks : ℕ) (pin : AgentPin) : Type 0 where
  pub on_test_network : is_test_network network ≡ true
  pub not_mainnet : pin.network ≢ Network.bitcoin
  pub same_network : pin.network ≡ network
  pub genesis : pin.genesis_hash ≡ lib.genesis_hash network
  pub csv : pin.csv_blocks ≡ csv_blocks
  pub csv_positive : 1 ≤ csv_blocks
  pub csv_fits : csv_blocks ≤ 65535
  pub primary_key : pin.primary_pubkey ≡ primary
  pub override_pin : pin.override_pubkey ≡ override_key
  pub agent_key : pin.agent_pubkey ≡ agent
  pub margin : pin.safety_margin ≡ 1008
  pub per_sig : pin.velocity_per_sig_sats ≡ 10_000_000
  pub per_144 : pin.velocity_per_144_sats ≡ 50_000_000
  pub threshold : pin.confirm_threshold_sats ≡ 5_000_000
  pub seconds : pin.wall_clock_seconds_per_block ≡ 600
  pub scripts :
      (desc : Bytes) × (compile_vault_descriptor ms primary override_key agent csv_blocks ≡ ok desc)
      × (pin.script_pubkey ≡ ms.script_pubkey desc)
      × (ms.explicit_script desc ≡ some pin.witness_script)
      × (pin.descriptor ≡ ms.to_string desc)

-- A pin is provisioned only on regtest, testnet or signet and for a delay of 1 to 65535 blocks; it
-- holds the given keys, the genesis hash of that network, the locked constants, and the scripts of
-- the descriptor compiled from those keys.
pub provision-IsLocked :
    (ms : Miniscript) (lib : Crates) (network : Network) (primary override_key agent : PublicKey)
    (csv_blocks : ℕ) (pin : AgentPin)
    → provision ms lib network primary override_key agent csv_blocks ≡ ok pin
    → IsLocked ms lib network primary override_key agent csv_blocks pin
unfolding provision
provision-IsLocked ms lib network primary override_key agent csv_blocks pin h = ground arith
