-- ===== src/Coordinator/Keys/Loaded.antt =====
-- Loading a key file (src/keys.rs).
use tesaurus.Prelude.{◌≡◌, refl, ◌∙◌, Bool, true, Bytes, [], ◌∷◌, ◌++◌, some, ok}
use tesaurus.Coordinator.Action.{lift, >>=-step, Reads, >>=-Reads}
use tesaurus.Coordinator.Files.{file, Disk, owner_only, read_to_string}
use tesaurus.Coordinator.Files.Extends.{metadata-file}
use tesaurus.Coordinator.Tools.{Tools}
use tesaurus.Coordinator.Keys.{
  KeyRole, key_path, from_wif, from_file, key_check, load_key, wif_line,
}

module _ (tools : Tools) where
  -- The WIF text of a key is read back, also with a newline behind it.
  unfoldable pub WifReadsBack : Type 0
  WifReadsBack =
      (key : Bytes)
      → tools.private_key_from_wif (tools.trim (tools.private_key_to_wif key ++ 10 ∷ [])) ≡ some key

  -- A private file is read.
  from_file-file :
      (role : KeyRole) (path text : Bytes) (disk : Disk)
      → disk path ≡ some (file owner_only text)
      → from_file tools true role path disk ≡ (from_wif tools role text, disk)
  unfolding from_file key_check read_to_string
  from_file-file role path text disk there =
      >>=-step (lift (key_check (disk path))) _ disk tt disk (rw (there, key_check) refl)
      ∙ >>=-step (read_to_string true path) _ disk text disk
          (rw (metadata-file disk path owner_only text there, read_to_string) refl)

  -- A key that stands in a private file is loaded.
  pub load_key-file :
      (keys_dir : Bytes) (role : KeyRole) (inner : Bytes) (disk : Disk)
      → WifReadsBack
      → disk (key_path keys_dir role)
        ≡ some (file owner_only (wif_line tools (record { role = role; inner = inner })))
      → load_key tools true keys_dir role disk ≡ (ok (record { role = role; inner = inner }), disk)
  unfolding load_key from_wif wif_line WifReadsBack
  load_key-file keys_dir role inner disk back there =
      from_file-file role (key_path keys_dir role) (tools.private_key_to_wif inner ++ 10 ∷ []) disk
        there
      ∙ rw (back inner, from_wif) refl

  from_file-Reads :
      (reads : Bool) (role : KeyRole) (path : Bytes) → Reads (from_file tools reads role path)
  unfolding from_file read_to_string
  from_file-Reads reads role path =
      >>=-Reads (λ disk. lift (key_check (disk path)) disk) _ (λ _. refl)
        (λ _. >>=-Reads (read_to_string reads path) _ (λ _. refl) (λ _ _. refl))

  -- Loading a key changes nothing.
  pub load_key-Reads :
      (reads : Bool) (keys_dir : Bytes) (role : KeyRole)
      → Reads (load_key tools reads keys_dir role)
  unfolding load_key
  load_key-Reads reads keys_dir role = from_file-Reads reads role (key_path keys_dir role)
