-- ===== src/Coordinator/Files.antt =====
-- The file system as src/keys.rs, wallet.rs, config.rs and bin/tesaurus.rs use it through std::fs: what
-- stands at each path is explicit state, and how each call ends is an argument. A path is its bytes and
-- names its node alone: hard links, and paths through a linked directory, are left out. A call of
-- `symlink_metadata` fails only where nothing stands.
pub mod Extends
pub mod Steps
pub mod Written
use tesaurus.Prelude.{
  ℕ, zero, suc, ◌%◌, Bool, true, false, not, Bytes, Bytes-discrete, List, [], ◌∷◌, ◌++◌, Option,
  some, none, ◌||◌, Result, ok, err, is_empty, is_some, ◌==◌, is_same, if◌then◌else◌,
}
use mathlib.Core.List.{reverse}
use tesaurus.Coordinator.Action.{Action, then_run, ◌>>=◌, ◌>>◌}
use tesaurus.Coordinator.Failure.{Error, CoreResult, CoreCheck}

-- A regular file with its permission bits and contents, a symbolic link, or a directory.
pub data Node : Type 0 where
  file : ℕ → Bytes → Node
  link : Bytes → Node
  directory : ℕ → Node

abbrev pub Disk : Type 0
Disk = Bytes → Option Node

abbrev pub update : Disk → Bytes → Node → Disk
update disk path node q = if is_same path q then some node else disk q

-- How the calls that write one file end. `write` is the contents that a broken write leaves.
pub record FileIo : Type 0 where
  pub create_dir : Bool
  pub dir_mode : ℕ
  pub set_dir_permissions : Bool
  pub opens : Bool
  pub created_mode : ℕ
  pub set_permissions : Bool
  pub write : Option Bytes
  pub sync : Bool

-- An operation on the disk that may fail half-way.
abbrev pub Fs : Type 0 → Type 0
Fs A = Action Disk A

abbrev pub check_io : Bool → Fs (Unit {0})
check_io true disk = (ok tt, disk)
check_io false disk = (err Error.io, disk)

-- The path behind a chain of at most 40 links, where something stands there.
follow : (Bytes → Option Bytes) → Bytes → Option Node → Option Bytes
follow next path none = none
follow next path (some (link target)) = next target
follow next path (some _) = some path

chase : ℕ → Disk → Bytes → Option Bytes
unfolding follow
chase zero disk path = none
chase (suc links) disk path = follow (chase links disk) path (disk path)

pub real_path : Disk → Bytes → Option Bytes
unfolding chase
real_path disk path = chase 41 disk path

-- `fs::metadata`, which follows links
unfoldable pub metadata : Disk → Bytes → Option Node
unfolding real_path
metadata disk path = elim (real_path disk path) [ some q ↦ disk q | none ↦ none ]

-- `Path::exists`
unfoldable pub exists : Disk → Bytes → Bool
unfolding metadata
exists disk path = is_some (metadata disk path)

-- `mode & 0o077 == 0`
abbrev pub is_private : ℕ → Bool
is_private mode = mode % 64 == 0

with_mode : ℕ → Node → Node
with_mode mode (file _ contents) = file mode contents
with_mode mode (link target) = link target
with_mode mode (directory _) = directory mode

pub chmod : Disk → Bytes → ℕ → Disk
unfolding with_mode
chmod disk path mode = elim (disk path) [
  | some node ↦ update disk path (with_mode mode node)
  | none ↦ disk
]

-- `fs::set_permissions`, which follows links
unfoldable pub set_permissions : Bool → Bytes → ℕ → Fs (Unit {0})
unfolding chmod real_path
set_permissions succeeds path mode disk = elim (real_path disk path) [
  | some q ↦ if succeeds then (ok tt, chmod disk q mode) else (err Error.io, disk)
  | none ↦ (err Error.io, disk)
]

-- What `create_dir_all` finds: a directory is left alone. The missing parents of a new directory,
-- which nothing reads, are left out.
create_missing : Bytes → ℕ → Option Node → Option Node → Fs (Unit {0})
create_missing path mode (some (directory _)) direct disk = (ok tt, disk)
create_missing path mode (some _) direct disk = (err Error.io, disk)
create_missing path mode none (some _) disk = (err Error.io, disk)
create_missing path mode none none disk = (ok tt, update disk path (directory mode))

unfoldable pub create_dir_all : Bool → ℕ → Bytes → Fs (Unit {0})
unfolding create_missing metadata
create_dir_all succeeds mode path disk =
    if is_empty path
    then (ok tt, disk)
    else if succeeds
    then create_missing path mode (metadata disk path) (disk path) disk
    else (err Error.io, disk)

created : Bool → ℕ → Bytes → Option Node → Fs (Unit {0})
created true mode path none disk = (ok tt, update disk path (file mode []))
created _ mode path _ disk = (err Error.io, disk)

-- `if let Some(parent) = path.parent() { fs::create_dir_all(parent)?; }`
unfoldable pub make_parent : FileIo → Option Bytes → Fs (Unit {0})
make_parent io none disk = (ok tt, disk)
make_parent io (some dir) disk = create_dir_all io.create_dir io.dir_mode dir disk

-- `OpenOptions` with `create_new`: nothing may stand at the path, not even a link.
unfoldable pub open_new : Bool → ℕ → Bytes → Fs (Unit {0})
unfolding created
open_new succeeds mode path disk = created succeeds mode path (disk path) disk

truncated : Bytes → ℕ → Option Node → Fs (Unit {0})
truncated path mode (some (file old _)) disk = (ok tt, update disk path (file old []))
truncated path mode none disk = (ok tt, update disk path (file mode []))
truncated path mode (some _) disk = (err Error.io, disk)

-- `OpenOptions` with `create` and `truncate`, at a path that was found to be no link.
unfoldable pub open_truncate : Bool → ℕ → Bytes → Fs (Unit {0})
unfolding truncated
open_truncate succeeds mode path disk =
    if succeeds then truncated path mode (disk path) disk else (err Error.io, disk)

put : Bytes → Bytes → Option Node → Disk → Disk
put path contents (some (file mode _)) disk = update disk path (file mode contents)
put path contents _ disk = disk

-- `write_all` on the open file.
unfoldable pub write_all : Option Bytes → Bytes → Bytes → Fs (Unit {0})
unfolding put
write_all none path contents disk = (ok tt, put path contents (disk path) disk)
write_all (some broken) path contents disk = (err Error.io, put path broken (disk path) disk)

-- `0o600`
abbrev pub owner_only : ℕ
owner_only = 384

-- `set_permissions`, `write_all` and `sync_all` on a file that was just opened.
unfoldable pub fill : FileIo → Bytes → Bytes → Fs (Unit {0})
unfolding set_permissions write_all
fill io path contents = do
  set_permissions io.set_permissions path owner_only
  write_all io.write path contents
  check_io io.sync

-- `fs::symlink_metadata` and the test for a symbolic link.
abbrev pub is_link : Option Node → Bool
is_link (some (link _)) = true
is_link _ = false

-- The tests of `Config::load` and `VaultState::load` on what `symlink_metadata` returns: a regular
-- file with `mode() & 0o077 == 0`.
unfoldable pub regular_check : Error → Option Node → CoreCheck
regular_check e none = err Error.io
regular_check e (some (file mode _)) = if is_private mode then ok tt else err e
regular_check e (some (link _)) = err e
regular_check e (some (directory _)) = err e

-- `fs::read_to_string`; whether the call succeeds is an argument.
abbrev pub read_node : Bool → Option Node → CoreResult Bytes
read_node true (some (file _ contents)) = ok contents
read_node _ _ = err Error.io

unfoldable pub read_to_string : Bool → Bytes → Fs Bytes
unfolding metadata
read_to_string succeeds path disk = (read_node succeeds (metadata disk path), disk)

-- `Path::join` with a file name
unfoldable pub join : Bytes → Bytes → Bytes
join dir name = elim (reverse dir) [
  | [] ↦ name
  | last ∷ _ ↦ if last == 47 then dir ++ name else dir ++ 47 ∷ name
]

unfoldable pub drop_slashes : Bytes → Bytes
drop_slashes [] = []
drop_slashes (c ∷ s) = if c == 47 then drop_slashes s else c ∷ s

drop_name : Bytes → Bytes
drop_name [] = []
drop_name (c ∷ s) = if c == 47 then c ∷ s else drop_name s

-- The directory before a name, read from the end: nothing, the root, or what precedes the slashes.
parent_of : Bytes → Bytes → Bytes
parent_of [] stripped = []
parent_of (_ ∷ _) [] = 47 ∷ []
parent_of (_ ∷ _) (c ∷ s) = reverse (c ∷ s)

-- `Path::parent` of a path without `.` components
unfoldable pub parent : Bytes → Option Bytes
unfolding drop_slashes drop_name parent_of
parent path =
    let trimmed = drop_slashes (reverse path) in
    let rest = drop_name trimmed in
    if is_empty trimmed then none else some (parent_of rest (drop_slashes rest))
