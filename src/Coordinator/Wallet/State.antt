-- ===== src/Coordinator/Wallet/State.antt =====
-- src/wallet.rs: the state file of a vault, saved and loaded. The JSON texts of serde_json are the two
-- functions of `StateJson`.
pub mod Saved
use tesaurus.Prelude.{
  ℕ, Bytes, Option, none, some, Bool, true, false, Result, ok, err, ok_or, not, ◌==◌,
}
use tesaurus.Bitcoin.{Miniscript}
use tesaurus.Policy.Pin.{codes}
use tesaurus.Coordinator.Action.{then_run, ◌>>=◌, ◌>>◌, pure, look, lift, refuse_if}
use tesaurus.Coordinator.Failure.{Error, CoreResult}
use tesaurus.Coordinator.Files.{
  Node, Disk, FileIo, Fs, is_link, regular_check, read_to_string, make_parent, parent,
  open_truncate, fill,
}
use tesaurus.Coordinator.Tools.{Tools}
use tesaurus.Coordinator.Descriptor.{VaultDescriptor, validate}

pub record VaultState : Type 0 where
  pub version : ℕ
  pub vault : VaultDescriptor
  pub notes : Option Bytes

-- `VaultState::new`
unfoldable pub new : VaultDescriptor → VaultState
new vault = record {
  version = 1;
  vault = vault;
  notes =
      some (codes "Back up this file and your key WIFs. The descriptor alone cannot spend funds.");
}

pub record StateJson : Type 0 where
  pub to_string_pretty : VaultState → Option Bytes
  pub from_str : Bytes → Option VaultState

module _ (ms : Miniscript) (tools : Tools) (json : StateJson) where
  -- `VaultState::load`; whether reading the text succeeds is an argument.
  unfoldable pub load : Bool → Bytes → Fs VaultState
  load reads path = do
    node ← look (λ disk. disk path)
    lift (regular_check Error.wallet node)
    raw ← read_to_string reads path
    state ← lift (ok_or (json.from_str raw) Error.json)
    refuse_if (not (state.version == 1)) Error.wallet
    lift (validate ms tools state.vault)
    pure state

  -- `VaultState::save`
  unfoldable pub save : FileIo → VaultState → Bytes → Fs (Unit {0})
  save io state path = do
    lift (validate ms tools state.vault)
    node ← look (λ disk. disk path)
    refuse_if (is_link node) Error.wallet
    make_parent io (parent path)
    raw ← lift (ok_or (json.to_string_pretty state) Error.json)
    open_truncate io.opens io.created_mode path
    fill io path raw
