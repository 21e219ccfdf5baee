-- ===== src/Coordinator/Descriptor.antt =====
-- src/descriptor.rs: the stored vault descriptor, its construction and its validation.
pub mod Canonical
use tesaurus.Prelude.{
  ℕ, Bool, not, ◌||◌, Bytes, Bytes-discrete, Result, ok, ◌>>=◌, ◌>>◌, ok_or, reject_if, ltb, ◌==◌,
  is_same,
}
use tesaurus.Bitcoin.{Miniscript, Network, Network-discrete, PublicKey}
use tesaurus.Policy.Pin.{is_test_network, vault_policy_str}
use tesaurus.Coordinator.Failure.{Error, CoreResult, CoreCheck}
use tesaurus.Coordinator.Tools.{Tools}

pub record VaultDescriptor : Type 0 where
  pub descriptor : Bytes
  pub csv_blocks : ℕ
  pub network : Bytes
  pub primary_pubkey : Bytes
  pub override_pubkey : Bytes
  pub agent_pubkey : Bytes
  pub receive_address : Bytes

module _ (ms : Miniscript) (tools : Tools) where
  -- `build`: the policy text is the one of `compile_vault_descriptor` in tesaurus-policy.
  unfoldable pub build :
      PublicKey → PublicKey → PublicKey → ℕ → Network → CoreResult VaultDescriptor
  build primary override_key agent csv_blocks network = do
    reject_if (is_same network Network.bitcoin) Error.descriptor
    reject_if (not (is_test_network network)) Error.descriptor
    reject_if (csv_blocks == 0 || ltb 65535 csv_blocks) Error.descriptor
    let policy_str = vault_policy_str ms primary override_key agent csv_blocks
    policy ← ok_or (ms.policy_from_str policy_str) Error.descriptor
    script ← ok_or (ms.compile policy) Error.descriptor
    desc ← ok_or (ms.new_wsh script) Error.descriptor
    reject_if (not (ms.sanity_check desc)) Error.descriptor
    address ← ok_or (tools.descriptor_address desc network) Error.descriptor
    ok (record {
      descriptor = ms.to_string desc;
      csv_blocks = csv_blocks;
      network = tools.network_to_string network;
      primary_pubkey = ms.display_key primary;
      override_pubkey = ms.display_key override_key;
      agent_pubkey = ms.display_key agent;
      receive_address = tools.address_to_string address;
    })

  pub parsed : VaultDescriptor → CoreResult Bytes
  parsed vault = ok_or (tools.descriptor_from_str vault.descriptor) Error.descriptor

  pub pubkeys : VaultDescriptor → CoreResult (PublicKey × PublicKey × PublicKey)
  pubkeys vault = do
    primary ← ok_or (tools.public_key_from_str vault.primary_pubkey) Error.descriptor
    override_key ← ok_or (tools.public_key_from_str vault.override_pubkey) Error.descriptor
    agent ← ok_or (tools.public_key_from_str vault.agent_pubkey) Error.descriptor
    ok (primary, override_key, agent)

  -- The comparisons that end `validate`.
  pub same_as_canonical : VaultDescriptor → VaultDescriptor → CoreCheck
  same_as_canonical vault canonical = do
    reject_if (not (is_same canonical.descriptor vault.descriptor)) Error.descriptor
    reject_if (not (is_same canonical.receive_address vault.receive_address)) Error.descriptor

  unfoldable pub validate : VaultDescriptor → CoreCheck
  unfolding parsed pubkeys same_as_canonical
  validate vault = do
    desc ← parsed vault
    reject_if (not (ms.sanity_check desc)) Error.descriptor
    network ← ok_or (tools.network_from_str vault.network) Error.descriptor
    keys ← pubkeys vault
    canonical ← build keys.0 keys.1 keys.2 vault.csv_blocks network
    same_as_canonical vault canonical

  unfoldable pub require_network : VaultDescriptor → Network → CoreCheck
  require_network vault expected = do
    validate vault
    actual ← ok_or (tools.network_from_str vault.network) Error.descriptor
    reject_if (not (is_same actual expected)) Error.descriptor

  unfoldable pub address : VaultDescriptor → CoreResult Bytes
  unfolding parsed
  address vault = do
    validate vault
    network ← ok_or (tools.network_from_str vault.network) Error.descriptor
    desc ← parsed vault
    ok_or (tools.descriptor_address desc network) Error.descriptor
