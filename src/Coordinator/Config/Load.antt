-- ===== src/Coordinator/Config/Load.antt =====
-- src/config.rs: reading the configuration file. The TOML parser is an argument.
pub mod Kept
use tesaurus.Prelude.{ℕ, Bool, true, ◌≡◌, refl, ◌∙◌, Bytes, Option, some, ok, ok_or}
use tesaurus.Policy.Pin.{codes}
use tesaurus.Coordinator.Action.{◌>>=◌, ◌>>◌, pure, look, lift, >>=-step, Reads, >>=-Reads}
use tesaurus.Coordinator.Failure.{Error}
use tesaurus.Coordinator.Files.{Disk, file, owner_only, Fs, regular_check, read_to_string}
use tesaurus.Coordinator.Files.Extends.{metadata-file}
use tesaurus.Coordinator.Tools.{Tools}
use tesaurus.Coordinator.Config.{Config, validate_config}

-- The defaults of fields that a configuration file leaves out.
abbrev pub default_rpc_url : Bytes
default_rpc_url = codes "http://127.0.0.1:18443"

abbrev pub default_wallet_name : Bytes
default_wallet_name = codes "tesaurus"

abbrev pub default_csv_blocks : ℕ
default_csv_blocks = 10

module _ (tools : Tools) (toml_from_str : Bytes → Option Config) where
  -- `Config::load`; whether reading the text succeeds is an argument.
  unfoldable pub load : Bool → Bytes → Fs Config
  load reads path = do
    node ← look (λ disk. disk path)
    lift (regular_check Error.config node)
    raw ← read_to_string reads path
    cfg ← lift (ok_or (toml_from_str raw) Error.config)
    lift (validate_config tools cfg)
    pure cfg

  -- A valid configuration in a private file is loaded.
  pub load-file :
      (path raw : Bytes) (cfg : Config) (disk : Disk)
      → disk path ≡ some (file owner_only raw)
      → toml_from_str raw ≡ some cfg
      → validate_config tools cfg ≡ ok tt
      → load true path disk ≡ (ok cfg, disk)
  unfolding load regular_check read_to_string
  load-file path raw cfg disk there parses valid =
      >>=-step (lift (regular_check Error.config (disk path))) _ disk tt disk
        (rw (there, regular_check) refl)
      ∙ (>>=-step (read_to_string true path) _ disk raw disk
            (rw (metadata-file disk path owner_only raw there, read_to_string) refl)
          ∙ (>>=-step (lift (ok_or (toml_from_str raw) Error.config)) _ disk cfg disk
                (rw parses refl)
              ∙ (>>=-step (lift (validate_config tools cfg)) _ disk tt disk (rw valid refl)
                  ∙ refl)))

  -- Loading changes nothing.
  pub load-Reads : (reads : Bool) (path : Bytes) → Reads (load reads path)
  unfolding load read_to_string
  load-Reads reads path =
      >>=-Reads (λ disk. lift (regular_check Error.config (disk path)) disk) _ (λ _. refl)
        (λ _.
          >>=-Reads (read_to_string reads path) _ (λ _. refl)
            (λ raw.
              >>=-Reads (lift (ok_or (toml_from_str raw) Error.config)) _ (λ _. refl)
                (λ cfg. >>=-Reads (lift (validate_config tools cfg)) _ (λ _. refl) (λ _ _. refl))))
