-- ===== src/Coordinator/Cli/Private.antt =====
-- `write_private_file` of src/bin/tesaurus.rs: the configuration file is written.
use tesaurus.Prelude.{◌≡◌, Bool, true, false, not, ◌&&◌, Bytes, some, ok}
use tesaurus.Coordinator.Action.{◌>>=◌, ◌>>◌, look, refuse_if, >>=-ok}
use tesaurus.Coordinator.Failure.{Error}
use tesaurus.Coordinator.Files.{
  file, Disk, FileIo, Fs, exists, is_link, make_parent, parent, open_new, open_truncate, owner_only,
  fill,
}
use tesaurus.Coordinator.Files.Steps.{Keeps, >>=-Keeps, refuse_if-Keeps, make_parent-Keeps}
use tesaurus.Coordinator.Files.Written.{
  Opens, open_new-Opens, open_truncate-Opens, open_new-fill-Extends, opened-fill-Written,
}

open_private : FileIo → Bool → Bytes → Fs (Unit {0})
open_private io true path = open_truncate io.opens io.created_mode path
open_private io false path = open_new io.opens io.created_mode path

unfoldable pub write_private_file : FileIo → Bytes → Bytes → Bool → Fs (Unit {0})
unfolding open_private
write_private_file io path contents overwrite = do
  found ← look (λ disk. exists disk path)
  refuse_if (found && not overwrite) Error.bail
  node ← look (λ disk. disk path)
  refuse_if (is_link node) Error.bail
  make_parent io (parent path)
  open_private io overwrite path
  fill io path contents

open_private-Opens :
    (io : FileIo) (overwrite : Bool) (path : Bytes) → Opens path (open_private io overwrite path)
unfolding open_private
open_private-Opens io true path = open_truncate-Opens io.opens io.created_mode path
open_private-Opens io false path = open_new-Opens io.opens io.created_mode path

module _ (io : FileIo) (path contents : Bytes) where
  -- Without `--force`, writing a private file changes nothing that was on the disk, however the calls of
  -- the file system end.
  pub write_private_file-Keeps : Keeps (write_private_file io path contents false)
  unfolding write_private_file open_private
  write_private_file-Keeps =
      >>=-Keeps (λ disk. refuse_if (exists disk path && true) Error.bail disk) _
        (λ disk. refuse_if-Keeps (exists disk path && true) Error.bail disk)
        (λ _.
          >>=-Keeps (λ disk. refuse_if (is_link (disk path)) Error.bail disk) _
            (λ disk. refuse_if-Keeps (is_link (disk path)) Error.bail disk)
            (λ _.
              >>=-Keeps (make_parent io (parent path)) _ (make_parent-Keeps io (parent path))
                (λ _ disk. open_new-fill-Extends io path contents io.opens io.created_mode disk)))

  -- A private file that was written has the contents and is open to its owner only.
  pub write_private_file-Written :
      (overwrite : Bool) (disk last : Disk)
      → write_private_file io path contents overwrite disk ≡ (ok tt, last)
      → last path ≡ some (file owner_only contents)
  unfolding write_private_file
  write_private_file-Written overwrite disk last h =
      let (_, d, _, r1) =
        >>=-ok (refuse_if (exists disk path && not overwrite) Error.bail) _ disk h in
      let (_, e, _, r2) = >>=-ok (refuse_if (is_link (d path)) Error.bail) _ d r1 in
      let (_, f, _, end) = >>=-ok (make_parent io (parent path)) _ e r2 in
      opened-fill-Written io path contents (open_private io overwrite path) f last
        (open_private-Opens io overwrite path) end
