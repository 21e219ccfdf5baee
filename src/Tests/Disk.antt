-- ===== src/Tests/Disk.antt =====
-- The files of a vault at work: keys on an empty disk, a state file, and a configuration file.
use tesaurus.Prelude.{
  is_same, if◌then◌else◌, ℕ, ◌≡◌, refl, ap, true, Bytes, Bytes-discrete, List, [], ◌∷◌, ◌++◌,
  Option, some, none, ok,
}
use mathlib.Core.Path.{subst}
use tesaurus.Bitcoin.{Network, Network-discrete}
use tesaurus.Coordinator.Files.{
  Disk, file, FileIo, exists, set_permissions, create_dir_all, open_new, open_truncate, write_all,
  fill, join, parent, make_parent, directory,
}
use tesaurus.Coordinator.Files.Extends.{Extends}
use tesaurus.Coordinator.Keys.{
  KeyRole, PublicVaultKeys, generate, load_key, public_key, generate_vault_keys, key_path, filename,
}
use tesaurus.Coordinator.Keys.Succeeds.{IsHealthy}
use tesaurus.Coordinator.Keys.Complete.{generate_vault_keys-succeeds}
use tesaurus.Coordinator.Keys.Loaded.{WifReadsBack}
use tesaurus.Coordinator.Keys.Generated.{
  text_of, generate_vault_keys-Extends, generate_vault_keys-load_key,
}
use tesaurus.Coordinator.Descriptor.{VaultDescriptor, validate, build}
use tesaurus.Coordinator.Wallet.State.{VaultState, StateJson, new, save, load}
use tesaurus.Coordinator.Wallet.State.Saved.{ReadsState, save-load}
use tesaurus.Tests.Codes.{Code, number, pair, through, many, decode-encode}
use tesaurus.Tests.Checks.{plain}
use tesaurus.Tests.Vault.{tools, vault, whole, without_last}

-- Every call succeeds.
abbrev pub healthy : FileIo
healthy = record {
  create_dir = true;
  dir_mode = 493;
  set_dir_permissions = true;
  opens = true;
  created_mode = 384;
  set_permissions = true;
  write = none;
  sync = true;
}

abbrev pub secret : KeyRole → Bytes
secret KeyRole.primary = 1 ∷ []
secret KeyRole.override_role = 2 ∷ []
secret KeyRole.agent = 3 ∷ []

abbrev empty : Disk
empty path = none

abbrev keys_dir : Bytes
keys_dir = 107 ∷ []

abbrev pubs : PublicVaultKeys
pubs = record { primary_text = 1 ∷ []; override_key = 2 ∷ []; agent_text = 3 ∷ [] }

abbrev after_keys : Disk
after_keys =
    (generate_vault_keys tools plain (λ role. healthy) secret keys_dir Network.regtest empty).1

keys_generated :
    generate_vault_keys tools plain (λ role. healthy) secret keys_dir Network.regtest empty
    ≡ (ok pubs, after_keys)
unfolding generate_vault_keys Network-discrete Bytes-discrete parent join create_dir_all exists
    set_permissions open_new fill
keys_generated = refl

trimmed : (key : Bytes) → without_last (key ++ 10 ∷ []) ≡ key
trimmed [] = refl
trimmed (x ∷ []) = refl
trimmed (x ∷ y ∷ key) = ap (λ (s : Bytes). x ∷ s) (trimmed (y ∷ key))

tools-WifReadsBack : WifReadsBack tools
unfolding WifReadsBack
tools-WifReadsBack key = ap some (trimmed key)

generate_vault_keys-load_key_example :
    (load_key tools true keys_dir KeyRole.agent after_keys
      ≡ (ok (generate tools KeyRole.agent Network.regtest (3 ∷ [])), after_keys))
    × (text_of KeyRole.agent pubs
        ≡ plain.display_key
            (public_key tools (generate tools KeyRole.agent Network.regtest (3 ∷ []))))
generate_vault_keys-load_key_example =
    generate_vault_keys-load_key tools plain (λ role. healthy) secret keys_dir Network.regtest empty
      after_keys pubs KeyRole.agent tools-WifReadsBack keys_generated

abbrev one_file : Disk
one_file [] = none
one_file (_ ∷ _) = some (file 420 (5 ∷ []))

generate_vault_keys-Extends_example :
    Extends one_file
      (generate_vault_keys tools plain (λ role. healthy) secret keys_dir Network.regtest one_file).1
generate_vault_keys-Extends_example =
    generate_vault_keys-Extends tools plain (λ role. healthy) secret keys_dir Network.regtest
      one_file

abbrev encode_notes : Option Bytes → List Bytes
encode_notes none = []
encode_notes (some s) = s ∷ []

abbrev decode_notes : List Bytes → Option Bytes
decode_notes [] = none
decode_notes (s ∷ _) = some s

pub notes_read : (n : Option Bytes) → decode_notes (encode_notes n) ≡ n
notes_read none = refl
notes_read (some s) = refl

abbrev fields : ℕ → List Bytes → VaultDescriptor
fields csv (d ∷ n ∷ p ∷ o ∷ a ∷ r ∷ _) = record {
  descriptor = d;
  csv_blocks = csv;
  network = n;
  primary_pubkey = p;
  override_pubkey = o;
  agent_pubkey = a;
  receive_address = r;
}
fields csv _ = record {
  descriptor = [];
  csv_blocks = csv;
  network = [];
  primary_pubkey = [];
  override_pubkey = [];
  agent_pubkey = [];
  receive_address = [];
}

abbrev descriptor : Code VaultDescriptor
descriptor =
    through (pair number (many (many number))) (λ (p : ℕ × List Bytes). fields p.0 p.1)
      (λ (v : VaultDescriptor). (
        v.csv_blocks,
        v.descriptor ∷ v.network ∷ v.primary_pubkey ∷ v.override_pubkey ∷ v.agent_pubkey
            ∷ v.receive_address ∷ [],
      ))
      (λ v. refl)

abbrev pub state_code : Code VaultState
state_code =
    through (pair (pair number descriptor) (many (many number)))
      (λ (p : (ℕ × VaultDescriptor) × List Bytes). record {
        version = p.0.0;
        vault = p.0.1;
        notes = decode_notes p.1;
      })
      (λ (s : VaultState). ((s.version, s.vault), encode_notes s.notes))
      (λ s. ap (λ n. record s { notes = n }) (notes_read s.notes))

abbrev pub json : StateJson
json = record {
  to_string_pretty = λ s. some (state_code.encode s);
  from_str = λ raw. whole (state_code.decode raw);
}

pub json-ReadsState : ReadsState json
unfolding ReadsState
json-ReadsState state raw h =
    subst (λ (r : Bytes). whole (state_code.decode r) ≡ some state)
      (ap (λ (o : Option Bytes). elim o [ some r ↦ r | none ↦ [] ]) h)
      (ap whole (decode-encode state_code state))

abbrev state_path : Bytes
state_path = 115 ∷ []

abbrev after_save : Disk
after_save = (save plain tools json healthy (new vault) state_path empty).1

saved : save plain tools json healthy (new vault) state_path empty ≡ (ok tt, after_save)
unfolding save new validate build Bytes-discrete Network-discrete open_truncate make_parent parent
    fill set_permissions write_all create_dir_all
saved = refl

save-load_example : load plain tools json true state_path after_save ≡ (ok (new vault), after_save)
unfolding new
save-load_example =
    save-load plain tools json healthy (new vault) state_path empty after_save json-ReadsState refl
      saved

-- Only the directory of the keys stands, with mode 0o700.
abbrev one_dir : Disk
one_dir path = if is_same keys_dir path then some (directory 448) else none

healthy-IsHealthy : (role : KeyRole) → IsHealthy healthy
healthy-IsHealthy role = record {
  creates = refl;
  opens = refl;
  permits = refl;
  writes = refl;
  syncs = refl;
}

no_keys : (role : KeyRole) → one_dir (key_path keys_dir role) ≡ none
unfolding key_path join filename Bytes-discrete
no_keys KeyRole.primary = refl
no_keys KeyRole.override_role = refl
no_keys KeyRole.agent = refl

keys_parent : (role : KeyRole) → parent (key_path keys_dir role) ≡ some keys_dir
unfolding key_path join filename parent
keys_parent KeyRole.primary = refl
keys_parent KeyRole.override_role = refl
keys_parent KeyRole.agent = refl

generate_vault_keys-succeeds_example :
    (keys : PublicVaultKeys) × (last : Disk) × (generate_vault_keys tools plain
        (λ role. healthy)
        secret
        keys_dir
        Network.regtest
        one_dir
      ≡ (ok keys, last))
unfolding Bytes-discrete Network-discrete
generate_vault_keys-succeeds_example =
    generate_vault_keys-succeeds tools plain (λ role. healthy) secret keys_dir Network.regtest
      one_dir 448 refl healthy-IsHealthy no_keys keys_parent refl refl
