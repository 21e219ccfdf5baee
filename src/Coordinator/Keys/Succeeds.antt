-- ===== src/Coordinator/Keys/Succeeds.antt =====
-- When `write_wif_file` (src/keys.rs) succeeds.
use tesaurus.Prelude.{◌≡◌, refl, ap, ◌∙◌, ℕ, true, Bytes, [], none, some, ok, is_some, arith}
use tesaurus.Coordinator.Action.{refuse_if, >>=-step}
use tesaurus.Coordinator.Failure.{Error}
use tesaurus.Coordinator.Files.{
  Disk, file, directory, update, FileIo, is_private, metadata, exists, create_dir_all, open_new,
  set_permissions, write_all, fill, parent,
}
use tesaurus.Coordinator.Files.Extends.{
  OnlyAt, OnlyAt-trans, update-OnlyAt, update-same, real_path-file, real_path-directory,
}
use tesaurus.Coordinator.Files.Written.{fill-OnlyAt}
use tesaurus.Coordinator.Tools.{Tools}
use tesaurus.Coordinator.Keys.{
  VaultKey, wif_line, dir_check, restrict_new, prepare_existed, prepare_dir, write_wif_file,
}

-- Every call of the file system succeeds.
pub record IsHealthy (io : FileIo) : Type 0 where
  pub creates : io.create_dir ≡ true
  pub opens : io.opens ≡ true
  pub permits : io.set_permissions ≡ true
  pub writes : io.write ≡ none
  pub syncs : io.sync ≡ true

metadata-directory :
    (disk : Disk) (path : Bytes) (mode : ℕ)
    → disk path ≡ some (directory mode)
    → metadata disk path ≡ some (directory mode)
unfolding metadata
metadata-directory disk path mode h = rw (real_path-directory disk path mode h, metadata) h

module _ (io : FileIo) (healthy : IsHealthy io) where
  prepared :
      (dir : Bytes) (disk : Disk) (mode : ℕ)
      → disk dir ≡ some (directory mode)
      → is_private mode ≡ true
      → prepare_dir io (some dir) disk ≡ (ok tt, disk)
  unfolding prepare_dir prepare_existed exists create_dir_all restrict_new dir_check
  prepared dir disk mode there private =
      let node = metadata-directory disk dir mode there in
      ground (arith, node, private, healthy.creates)

  opened :
      (mode : ℕ) (path : Bytes) (disk : Disk)
      → disk path ≡ none
      → open_new io.opens mode path disk ≡ (ok tt, update disk path (file mode []))
  unfolding open_new
  opened mode path disk absent = rw healthy.opens (rw (absent, open_new) refl)

  filled :
      (path contents : Bytes) (disk : Disk) (mode : ℕ) (old : Bytes)
      → disk path ≡ some (file mode old)
      → fill io path contents disk ≡ (ok tt, (fill io path contents disk).1)
  unfolding fill set_permissions write_all
  filled path contents disk mode old there =
      let real = real_path-file disk path mode old there in
      ap (λ r. (r, (fill io path contents disk).1))
        (ground (arith, real, healthy.permits, healthy.writes, healthy.syncs))

  module _ (tools : Tools) where
    -- Where every call of the file system succeeds, a key file is written, and nothing else changes, if
    -- nothing stands at its path and its directory exists and is private.
    pub write_wif_file-succeeds :
        (key : VaultKey) (path dir : Bytes) (disk : Disk) (mode : ℕ)
        → disk path ≡ none
        → parent path ≡ some dir
        → disk dir ≡ some (directory mode)
        → is_private mode ≡ true
        → (last : Disk) × (write_wif_file tools io key path disk ≡ (ok tt, last))
          × OnlyAt path disk last
    unfolding write_wif_file
    write_wif_file-succeeds key path dir disk mode absent has_dir there private =
        let new = update disk path (file io.created_mode []) in
        let text = wif_line tools key in
        let stands = update-same disk path (file io.created_mode []) in
        (
          (fill io path text new).1,
          >>=-step (refuse_if (is_some (disk path)) Error.key) _ disk tt disk (rw absent refl)
              ∙ (>>=-step (prepare_dir io (parent path)) _ disk tt disk
                    (rw has_dir (prepared dir disk mode there private))
                  ∙ (>>=-step (open_new io.opens io.created_mode path) _ disk tt new
                        (opened io.created_mode path disk absent)
                      ∙ filled path text new io.created_mode [] stands)),
          OnlyAt-trans path disk new (fill io path text new).1
              (update-OnlyAt disk path (file io.created_mode []))
              (fill-OnlyAt io path text new io.created_mode [] stands),
        )
