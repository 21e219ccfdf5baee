-- ===== src/Coordinator/Descriptor/Canonical.antt =====
-- What the constructor and the validation of src/descriptor.rs establish.
use tesaurus.Prelude.{ℕ, ◌≤◌, ◌≡◌, true, some, arith, ok}
use tesaurus.Bitcoin.{Miniscript, Network, PublicKey}
use tesaurus.Policy.Pin.{is_test_network}
use tesaurus.Coordinator.Tools.{Tools}
use tesaurus.Coordinator.Descriptor.{
  VaultDescriptor, build, pubkeys, same_as_canonical, validate, require_network,
}

module _ (ms : Miniscript) (tools : Tools) where
  -- The stored descriptor and address are those built from its own keys, delay and network.
  pub record IsCanonical (vault : VaultDescriptor) (network : Network) : Type 0 where
    pub network_reads : tools.network_from_str vault.network ≡ some network
    pub on_test_network : is_test_network network ≡ true
    pub csv_positive : 1 ≤ vault.csv_blocks
    pub csv_fits : vault.csv_blocks ≤ 65535
    pub primary : PublicKey
    pub override_key : PublicKey
    pub agent : PublicKey
    pub primary_reads : tools.public_key_from_str vault.primary_pubkey ≡ some primary
    pub override_reads : tools.public_key_from_str vault.override_pubkey ≡ some override_key
    pub agent_reads : tools.public_key_from_str vault.agent_pubkey ≡ some agent
    pub canonical : VaultDescriptor
    pub builds : build ms tools primary override_key agent vault.csv_blocks network ≡ ok canonical
    pub same_descriptor : canonical.descriptor ≡ vault.descriptor
    pub same_address : canonical.receive_address ≡ vault.receive_address

  build_lem :
      (primary override_key agent : PublicKey) (csv_blocks : ℕ) (network : Network)
      (vault : VaultDescriptor)
      → build ms tools primary override_key agent csv_blocks network ≡ ok vault
      → (is_test_network network ≡ true) × (1 ≤ csv_blocks) × (csv_blocks ≤ 65535)
  unfolding build
  build_lem primary override_key agent csv_blocks network vault h = ground arith

  validate_lem :
      (vault : VaultDescriptor)
      → validate ms tools vault ≡ ok tt
      → (network : Network) × (tools.network_from_str vault.network ≡ some network)
        × ((keys : PublicKey × PublicKey × PublicKey) × (pubkeys ms tools vault ≡ ok keys)
            × ((canonical : VaultDescriptor) × (build ms tools keys.0 keys.1 keys.2 vault.csv_blocks
                    network
                  ≡ ok canonical)
                × (same_as_canonical ms tools vault canonical ≡ ok tt)))
  unfolding validate
  validate_lem vault h = ground arith

  pubkeys_lem :
      (vault : VaultDescriptor) (keys : PublicKey × PublicKey × PublicKey)
      → pubkeys ms tools vault ≡ ok keys
      → (tools.public_key_from_str vault.primary_pubkey ≡ some keys.0)
        × (tools.public_key_from_str vault.override_pubkey ≡ some keys.1)
        × (tools.public_key_from_str vault.agent_pubkey ≡ some keys.2)
  unfolding pubkeys
  pubkeys_lem vault keys h = ground arith

  same_lem :
      (vault canonical : VaultDescriptor)
      → same_as_canonical ms tools vault canonical ≡ ok tt
      → (canonical.descriptor ≡ vault.descriptor)
        × (canonical.receive_address ≡ vault.receive_address)
  unfolding same_as_canonical
  same_lem vault canonical h = ground arith

  require_lem :
      (vault : VaultDescriptor) (network : Network)
      → require_network ms tools vault network ≡ ok tt
      → (validate ms tools vault ≡ ok tt) × (tools.network_from_str vault.network ≡ some network)
  unfolding require_network
  require_lem vault network h = ground arith

  -- A descriptor that is accepted for a network names that network, which is regtest, testnet or
  -- signet, has a delay of 1 to 65535 blocks, and its text and address are the ones that `build` makes
  -- of its keys, delay and network.
  pub require_network-IsCanonical :
      (vault : VaultDescriptor) (network : Network)
      → require_network ms tools vault network ≡ ok tt
      → IsCanonical vault network
  require_network-IsCanonical vault network h =
      let (valid, reads) = require_lem vault network h in
      let (network', reads', (keys, got, (canonical, builds, same))) = validate_lem vault valid in
      let chosen : network' ≡ network = cc (reads, reads') in
      let (primary, override_key, agent) = pubkeys_lem vault keys got in
      let (test, positive, small) =
        build_lem keys.0 keys.1 keys.2 vault.csv_blocks network' canonical builds in
      let (text, address) = same_lem vault canonical same in
      record {
        network_reads = reads;
        on_test_network = rw chosen at test;
        csv_positive = positive;
        csv_fits = small;
        primary = keys.0;
        override_key = keys.1;
        agent = keys.2;
        primary_reads = primary;
        override_reads = override_key;
        agent_reads = agent;
        canonical = canonical;
        builds = rw chosen at builds;
        same_descriptor = text;
        same_address = address;
      }
