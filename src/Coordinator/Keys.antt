-- ===== src/Coordinator/Keys.antt =====
-- src/keys.rs: the key files of a vault. A private key is its bytes; the random secrets are arguments.
-- The wiping of memory is left out.
pub mod Loaded
pub mod Written
pub mod Succeeds
pub mod Generated
pub mod Complete
pub mod Public
use tesaurus.Prelude.{
  ℕ, Bool, true, false, not, ◌&&◌, Bytes, List, [], ◌∷◌, ◌++◌, Option, some, none, Result, ok, err,
  reject_if, is_some, if◌then◌else◌,
}
use tesaurus.Bitcoin.{Miniscript, Network, PublicKey}
use tesaurus.Policy.Pin.{codes, is_test_network}
use tesaurus.Coordinator.Action.{then_run, ◌>>=◌, ◌>>◌, pure, look, lift, refuse_if}
use tesaurus.Coordinator.Failure.{Error, CoreResult, CoreCheck}
use tesaurus.Coordinator.Files.{
  Node, file, link, directory, Disk, FileIo, Fs, check_io, metadata, exists, is_private,
  set_permissions, create_dir_all, open_new, owner_only, fill, read_to_string, join, parent,
}
use tesaurus.Coordinator.Tools.{Tools}

pub data KeyRole : Type 0 where
  primary override_role agent : KeyRole

pub as_str : KeyRole → Bytes
as_str primary = codes "primary"
as_str override_role = codes "override"
as_str agent = codes "agent"

unfoldable pub filename : KeyRole → Bytes
filename primary = codes "primary.wif"
filename override_role = codes "override.wif"
filename agent = codes "agent.wif"

pub record VaultKey : Type 0 where
  pub role : KeyRole
  pub inner : Bytes

unfoldable pub key_path : Bytes → KeyRole → Bytes
unfolding filename
key_path keys_dir role = join keys_dir (filename role)

-- `mode() & 0o077 != 0` on what `fs::metadata` returns for the key directory.
dir_check : Option Node → CoreCheck
dir_check none = err Error.io
dir_check (some (link _)) = err Error.io
dir_check (some (file mode _)) = reject_if (not (is_private mode)) Error.key
dir_check (some (directory mode)) = reject_if (not (is_private mode)) Error.key

-- The permissions of a new key directory are set to 0o700.
restrict_new : FileIo → Bytes → Bool → Fs (Unit {0})
restrict_new io dir true = pure tt
restrict_new io dir false = set_permissions io.set_dir_permissions dir 448

prepare_existed : FileIo → Bytes → Bool → Fs (Unit {0})
unfolding dir_check restrict_new
prepare_existed io dir existed = do
  create_dir_all io.create_dir io.dir_mode dir
  restrict_new io dir existed
  node ← look (λ disk. metadata disk dir)
  lift (dir_check node)

-- The part of `write_wif_file` for the directory of the key.
pub prepare_dir : FileIo → Option Bytes → Fs (Unit {0})
unfolding prepare_existed
prepare_dir io none disk = (ok tt, disk)
prepare_dir io (some dir) disk = prepare_existed io dir (exists disk dir) disk

-- The tests of `from_file` on what `symlink_metadata` returns.
pub key_check : Option Node → CoreCheck
key_check none = err Error.io
key_check (some (link _)) = err Error.key
key_check (some (file mode _)) = reject_if (not (is_private mode)) Error.key
key_check (some (directory mode)) = reject_if (not (is_private mode)) Error.key

pub record PublicVaultKeys : Type 0 where
  pub primary_text : Bytes
  pub override_key : Bytes
  pub agent_text : Bytes

module _ (tools : Tools) where
  -- `VaultKey::generate`
  pub generate : KeyRole → Network → Bytes → VaultKey
  generate role network secret = record {
    role = role;
    inner = tools.private_key_new secret network;
  }

  -- `VaultKey::from_wif`
  pub from_wif : KeyRole → Bytes → CoreResult VaultKey
  from_wif role wif = elim (tools.private_key_from_wif (tools.trim wif)) [
    | none ↦ err Error.key
    | some inner ↦ ok (record { role = role; inner = inner })
  ]

  -- `VaultKey::from_file`; whether reading the text succeeds is an argument.
  pub from_file : Bool → KeyRole → Bytes → Fs VaultKey
  unfolding key_check from_wif
  from_file reads role path = do
    node ← look (λ disk. disk path)
    lift (key_check node)
    wif ← read_to_string reads path
    lift (from_wif role wif)

  unfoldable pub load_key : Bool → Bytes → KeyRole → Fs VaultKey
  unfolding from_file key_path
  load_key reads keys_dir role = from_file reads role (key_path keys_dir role)

  -- What `write_wif_file` writes: the key in WIF and a newline.
  pub wif_line : VaultKey → Bytes
  wif_line key = tools.private_key_to_wif key.inner ++ 10 ∷ []

  -- `VaultKey::write_wif_file`
  unfoldable pub write_wif_file : FileIo → VaultKey → Bytes → Fs (Unit {0})
  unfolding prepare_dir wif_line
  write_wif_file io key path = do
    node ← look (λ disk. disk path)
    refuse_if (is_some node) Error.key
    prepare_dir io (parent path)
    open_new io.opens io.created_mode path
    fill io path (wif_line key)

  unfoldable pub public_key : VaultKey → PublicKey
  public_key key = tools.from_private_key key.inner

  -- The body of the first loop of `generate_vault_keys`.
  pub refuse_existing : Bytes → KeyRole → Fs (Unit {0})
  unfolding key_path
  refuse_existing keys_dir role = do
    node ← look (λ disk. disk (key_path keys_dir role))
    refuse_if (is_some node) Error.key

  module _ (ms : Miniscript) (io : KeyRole → FileIo) (secret : KeyRole → Bytes) where
    -- The body of the second loop of `generate_vault_keys`.
    pub write_new_key : Bytes → Network → KeyRole → Fs Bytes
    unfolding generate write_wif_file public_key key_path
    write_new_key keys_dir network role = do
      write_wif_file (io role) (generate role network (secret role)) (key_path keys_dir role)
      pure (ms.display_key (public_key (generate role network (secret role))))

    -- The second loop of `generate_vault_keys`, over the three roles, and its result.
    pub write_new_keys : Bytes → Network → Fs PublicVaultKeys
    unfolding write_new_key
    write_new_keys keys_dir network = do
      primary_text ← write_new_key keys_dir network primary
      override_key ← write_new_key keys_dir network override_role
      agent_text ← write_new_key keys_dir network agent
      pure (record {
        primary_text = primary_text;
        override_key = override_key;
        agent_text = agent_text;
      })

    unfoldable pub generate_vault_keys : Bytes → Network → Fs PublicVaultKeys
    unfolding refuse_existing write_new_keys
    generate_vault_keys keys_dir network = do
      refuse_if (not (is_test_network network)) Error.key
      refuse_existing keys_dir primary
      refuse_existing keys_dir override_role
      refuse_existing keys_dir agent
      write_new_keys keys_dir network
