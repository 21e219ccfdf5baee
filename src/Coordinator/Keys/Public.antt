-- ===== src/Coordinator/Keys/Public.antt =====
-- The public keys that key generation returns (src/keys.rs): reading them back.
use tesaurus.Prelude.{Bytes, ok, ◌>>=◌, ok_or}
use tesaurus.Bitcoin.{PublicKey}
use tesaurus.Coordinator.Failure.{Error, CoreResult}
use tesaurus.Coordinator.Tools.{Tools}
use tesaurus.Coordinator.Keys.{PublicVaultKeys}

module _ (tools : Tools) where
  pub parse_pubkey : Bytes → CoreResult PublicKey
  parse_pubkey s = ok_or (tools.public_key_from_str s) Error.key

  -- `PublicVaultKeys::parse`
  unfoldable pub parse : PublicVaultKeys → CoreResult (PublicKey × PublicKey × PublicKey)
  unfolding parse_pubkey
  parse keys = do
    primary ← parse_pubkey keys.primary_text
    override_key ← parse_pubkey keys.override_key
    agent ← parse_pubkey keys.agent_text
    ok (primary, override_key, agent)
