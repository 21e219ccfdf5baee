-- ===== src/Policy/Pin.antt =====
-- tesaurus-policy/src/pin.rs: the pinned identity of the vault, and its provisioning.
pub mod Provision
use Prim.Native.String.{String}
use Prim.Native.Char.{code}
use tesaurus.Prelude.{
  ℕ, zero, suc, ◌+◌, ◌/◌, ◌%◌, Bool, not, ◌||◌, Bytes, [], ◌∷◌, ◌++◌, Result, ok, ◌>>=◌, ◌>>◌,
  ok_or, reject_if, ltb, ◌==◌, is_same, u16_max, if◌then◌else◌,
}
use tesaurus.Bitcoin.{Crates, Miniscript, Network, Network-discrete, PublicKey, PublicKey-discrete}
use tesaurus.Policy.Constants.{
  safety_margin_blocks, velocity_per_sig_sats, velocity_per_144_sats, oob_confirm_sats,
  wall_clock_seconds_per_block,
}
use tesaurus.Policy.Error.{PolicyErrorCode, PolicyResult}

pub record AgentPin : Type 0 where
  pub network : Network
  pub genesis_hash : Bytes
  pub descriptor : Bytes
  pub csv_blocks : ℕ
  pub primary_pubkey : PublicKey
  pub override_pubkey : PublicKey
  pub agent_pubkey : PublicKey
  pub safety_margin : ℕ
  pub velocity_per_sig_sats : ℕ
  pub velocity_per_144_sats : ℕ
  pub confirm_threshold_sats : ℕ
  pub wall_clock_seconds_per_block : ℕ
  pub script_pubkey : Bytes
  pub witness_script : Bytes

unfoldable pub contains_pubkey : AgentPin → PublicKey → Bool
contains_pubkey pin pk =
    is_same pk pin.primary_pubkey || is_same pk pin.override_pubkey || is_same pk pin.agent_pubkey

-- `matches!(network, Regtest | Testnet | Signet)`
abbrev pub is_test_network : Network → Bool
is_test_network network =
    is_same network Network.regtest
    || is_same network Network.testnet
    || is_same network Network.signet

-- The bytes of an ASCII text.
abbrev pub codes : String → Bytes
codes String.[] = []
codes (String.◌∷◌ c s) = code c ∷ codes s

-- The decimal digits of a number below 10 to the number of rounds.
decimal_digits : ℕ → ℕ → Bytes
decimal_digits zero n = []
decimal_digits (suc rounds) n =
    let higher = decimal_digits rounds (n / 10) in
    if ltb n 10 then (48 + n) ∷ [] else higher ++ (48 + n % 10) ∷ []

-- `u32` in a format string: ten digits are enough.
unfoldable pub display_u32 : ℕ → Bytes
unfolding decimal_digits
display_u32 n = decimal_digits 10 n

module _ (ms : Miniscript) where
  -- `format!("thresh(2,pk({primary}),pk({override_key}),and(pk({agent}),older({csv_blocks})))")`
  pub vault_policy_str : PublicKey → PublicKey → PublicKey → ℕ → Bytes
  unfolding display_u32
  vault_policy_str primary override_key agent csv_blocks =
      codes "thresh(2,pk("
      ++ (ms.display_key primary
          ++ (codes "),pk("
              ++ (ms.display_key override_key
                  ++ (codes "),and(pk("
                      ++ (ms.display_key agent
                          ++ (codes "),older(" ++ (display_u32 csv_blocks ++ codes ")))")))))))

  unfoldable pub compile_vault_descriptor :
      PublicKey → PublicKey → PublicKey → ℕ → PolicyResult Bytes
  compile_vault_descriptor primary override_key agent csv_blocks = do
    let policy_str = vault_policy_str primary override_key agent csv_blocks
    policy ← ok_or (ms.policy_from_str policy_str) PolicyErrorCode.descriptor_mismatch
    script ← ok_or (ms.compile policy) PolicyErrorCode.descriptor_mismatch
    desc ← ok_or (ms.new_wsh script) PolicyErrorCode.descriptor_mismatch
    reject_if (not (ms.sanity_check desc)) PolicyErrorCode.descriptor_mismatch
    ok desc

  unfoldable pub provision :
      Crates → Network → PublicKey → PublicKey → PublicKey → ℕ → PolicyResult AgentPin
  provision lib network primary override_key agent csv_blocks = do
    reject_if (is_same network Network.bitcoin) PolicyErrorCode.wrong_network
    reject_if (not (is_test_network network)) PolicyErrorCode.wrong_network
    reject_if (csv_blocks == 0 || ltb u16_max csv_blocks) PolicyErrorCode.descriptor_mismatch
    descriptor ← compile_vault_descriptor primary override_key agent csv_blocks
    let script_pubkey = ms.script_pubkey descriptor
    witness_script ← ok_or (ms.explicit_script descriptor) PolicyErrorCode.descriptor_mismatch
    ok (record {
      network = network;
      genesis_hash = lib.genesis_hash network;
      descriptor = ms.to_string descriptor;
      csv_blocks = csv_blocks;
      primary_pubkey = primary;
      override_pubkey = override_key;
      agent_pubkey = agent;
      safety_margin = safety_margin_blocks;
      velocity_per_sig_sats = velocity_per_sig_sats;
      velocity_per_144_sats = velocity_per_144_sats;
      confirm_threshold_sats = oob_confirm_sats;
      wall_clock_seconds_per_block = wall_clock_seconds_per_block;
      script_pubkey = script_pubkey;
      witness_script = witness_script;
    })
