-- ===== src/Coordinator/Keys/Written.antt =====
-- What `write_wif_file` (src/keys.rs) leaves on the disk.
use tesaurus.Prelude.{◌≡◌, refl, sym, ap, Bool, true, false, Bytes, Option, some, none, ok, is_some}
use tesaurus.Coordinator.Action.{refuse_if, >>=-state, >>=-ok, refuse_if-Reads}
use tesaurus.Coordinator.Failure.{Error, CoreResult}
use tesaurus.Coordinator.Files.{
  file, Disk, FileIo, exists, set_permissions, create_dir_all, open_new, owner_only, parent,
}
use tesaurus.Coordinator.Files.Extends.{Extends, create_dir_all-Extends, restricted-Extends}
use tesaurus.Coordinator.Files.Written.{open_new-fill-Extends, opened-fill-Written, open_new-Opens}
use tesaurus.Coordinator.Files.Steps.{>>=-Keeps, Reads-Keeps}
use tesaurus.Coordinator.Tools.{Tools}
use tesaurus.Coordinator.Keys.{
  VaultKey, restrict_new, prepare_existed, prepare_dir, wif_line, write_wif_file,
}

module _ (io : FileIo) where
  existed-Extends :
      (dir : Bytes) (disk : Disk) (existed : Bool)
      → exists disk dir ≡ existed
      → Extends disk (prepare_existed io dir existed disk).1
  unfolding prepare_existed restrict_new
  existed-Extends dir disk true h =
      >>=-state (create_dir_all io.create_dir io.dir_mode dir) _ disk (Extends disk)
        (create_dir_all-Extends io.create_dir io.dir_mode dir disk) (λ _ d _ kept. kept)
  existed-Extends dir disk false h =
      >>=-state (create_dir_all io.create_dir io.dir_mode dir) _ disk (Extends disk)
        (create_dir_all-Extends io.create_dir io.dir_mode dir disk)
        (λ _ d made _.
          >>=-state (set_permissions io.set_dir_permissions dir 448) _ d (Extends disk)
            (rw (sym (ap (λ (r : CoreResult (Unit {0}) × Disk). r.1) made))
              (restricted-Extends io.create_dir io.dir_mode dir disk io.set_dir_permissions 448 h))
            (λ _ e _ kept. kept))

  pub prepare_dir-Extends :
      (dir : Option Bytes) (disk : Disk) → Extends disk (prepare_dir io dir disk).1
  unfolding prepare_dir
  prepare_dir-Extends none disk = λ path node h. h
  prepare_dir-Extends (some dir) disk = existed-Extends dir disk (exists disk dir) refl

  module _ (tools : Tools) (key : VaultKey) (path : Bytes) where
    -- However the calls of the file system end, writing a key file changes nothing that was on the
    -- disk.
    pub write_wif_file-Extends :
        (disk : Disk) → Extends disk (write_wif_file tools io key path disk).1
    unfolding write_wif_file
    write_wif_file-Extends =
        >>=-Keeps (λ disk. refuse_if (is_some (disk path)) Error.key disk) _
          (λ disk.
            Reads-Keeps (refuse_if (is_some (disk path)) Error.key)
              (refuse_if-Reads (is_some (disk path)) Error.key) disk)
          (λ _.
            >>=-Keeps (prepare_dir io (parent path)) _ (prepare_dir-Extends (parent path))
              (λ _ disk.
                open_new-fill-Extends io path (wif_line tools key) io.opens io.created_mode disk))

    -- A key file that was written holds the key and is open to its owner only.
    pub write_wif_file-Written :
        (disk last : Disk)
        → write_wif_file tools io key path disk ≡ (ok tt, last)
        → last path ≡ some (file owner_only (wif_line tools key))
    unfolding write_wif_file
    write_wif_file-Written disk last h =
        let (_, d, _, rest) = >>=-ok (refuse_if (is_some (disk path)) Error.key) _ disk h in
        let (_, e, _, end) = >>=-ok (prepare_dir io (parent path)) _ d rest in
        opened-fill-Written io path (wif_line tools key) (open_new io.opens io.created_mode path) e
          last (open_new-Opens io.opens io.created_mode path) end
