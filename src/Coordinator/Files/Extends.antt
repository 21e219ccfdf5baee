-- ===== src/Coordinator/Files/Extends.antt =====
-- Which nodes the operations of Files change: a disk extends another if every node of it still stands.
use tesaurus.Prelude.{
  ℕ, zero, suc, ◌≡◌, ◌≢◌, ◌⊎◌, inl, inr, refl, sym, ap, ◌∙◌, Bool, true, false, Bytes,
  Bytes-discrete, Option, some, none, arith, Option-cases,
}
use tesaurus.Coordinator.Files.{
  Node, file, link, directory, Disk, update, with_mode, chmod, follow, chase, real_path, metadata,
  exists, set_permissions, create_missing, create_dir_all, put, write_all,
}

-- Every node of the first disk stands unchanged in the second.
abbrev pub Extends : Disk → Disk → Type 0
Extends disk disk' = (path : Bytes) (node : Node) → disk path ≡ some node → disk' path ≡ some node

-- The disks agree at every other path.
abbrev pub OnlyAt : Bytes → Disk → Disk → Type 0
OnlyAt path disk disk' = (q : Bytes) → q ≢ path → disk' q ≡ disk q

pub update-same :
    (disk : Disk) (path : Bytes) (node : Node) → update disk path node path ≡ some node
update-same disk path node = ground arith

pub update-OnlyAt :
    (disk : Disk) (path : Bytes) (node : Node) → OnlyAt path disk (update disk path node)
update-OnlyAt disk path node q h = ground (arith, λ (e : path ≡ q). h (sym e))

pub OnlyAt-trans :
    (path : Bytes) (a b c : Disk) → OnlyAt path a b → OnlyAt path b c → OnlyAt path a c
OnlyAt-trans path a b c h k q differs = k q differs ∙ h q differs

pub Extends-of_OnlyAt :
    (path : Bytes) (disk disk' : Disk)
    → disk path ≡ none
    → OnlyAt path disk disk'
    → Extends disk disk'
Extends-of_OnlyAt path disk disk' fresh only q node h =
    only q (λ e. ground (arith, fresh, h, ap disk e)) ∙ h

pub chmod-file :
    (disk : Disk) (path : Bytes) (mode old : ℕ) (contents : Bytes)
    → disk path ≡ some (file old contents)
    → chmod disk path mode ≡ update disk path (file mode contents)
unfolding chmod with_mode
chmod-file disk path mode old contents h = rw (h, chmod) refl

chmod-OnlyAt : (disk : Disk) (path : Bytes) (mode : ℕ) → OnlyAt path disk (chmod disk path mode)
unfolding chmod
chmod-OnlyAt disk path mode q h = elim (Option-cases (disk path)) [
  | inl none_there ↦ rw (none_there, chmod) refl
  | inr (node, there) ↦ rw (there, chmod) (update-OnlyAt disk path (with_mode mode node) q h)
]

-- A file stands at its own path.
pub real_path-file :
    (disk : Disk) (path : Bytes) (mode : ℕ) (contents : Bytes)
    → disk path ≡ some (file mode contents)
    → real_path disk path ≡ some path
unfolding real_path chase follow
real_path-file disk path mode contents h = rw h refl

pub real_path-directory :
    (disk : Disk) (path : Bytes) (mode : ℕ)
    → disk path ≡ some (directory mode)
    → real_path disk path ≡ some path
unfolding real_path chase follow
real_path-directory disk path mode h = rw h refl

pub metadata-file :
    (disk : Disk) (path : Bytes) (mode : ℕ) (contents : Bytes)
    → disk path ≡ some (file mode contents)
    → metadata disk path ≡ some (file mode contents)
unfolding metadata
metadata-file disk path mode contents h = rw (real_path-file disk path mode contents h, metadata) h

-- Something stands at every real path.
chase-node :
    (links : ℕ) (disk : Disk) (path q : Bytes)
    → chase links disk path ≡ some q
    → (node : Node) × (disk q ≡ some node)
unfolding chase follow
chase-node zero disk path q h = ground arith
chase-node (suc links) disk path q h = elim (Option-cases (disk path)) [
  | inl absent ↦ ground arith
  | inr (file mode contents, there) ↦ (file mode contents, ground arith)
  | inr (directory mode, there) ↦ (directory mode, ground arith)
  | inr (link target, there) ↦ chase-node links disk target q (ground arith)
]

pub set_permissions-OnlyAt :
    (succeeds : Bool) (path : Bytes) (mode : ℕ) (disk : Disk)
    → real_path disk path ≡ some path
    → OnlyAt path disk (set_permissions succeeds path mode disk).1
unfolding set_permissions
set_permissions-OnlyAt true path mode disk h q differs =
    rw (h, set_permissions) (chmod-OnlyAt disk path mode q differs)
set_permissions-OnlyAt false path mode disk h q differs = rw (h, set_permissions) refl

put-OnlyAt :
    (path contents : Bytes) (disk : Disk) → OnlyAt path disk (put path contents (disk path) disk)
unfolding put
put-OnlyAt path contents disk q differs = elim (Option-cases (disk path)) [
  | inl absent ↦ rw absent refl
  | inr (file mode old, there) ↦ rw there (update-OnlyAt disk path (file mode contents) q differs)
  | inr (directory mode, there) ↦ rw there refl
  | inr (link target, there) ↦ rw there refl
]

pub write_all-OnlyAt :
    (broken : Option Bytes) (path contents : Bytes) (disk : Disk)
    → OnlyAt path disk (write_all broken path contents disk).1
unfolding write_all
write_all-OnlyAt none path contents disk = put-OnlyAt path contents disk
write_all-OnlyAt (some broken) path contents disk = put-OnlyAt path broken disk

-- What exists has a real path, and the other way round.
pub real_path-absent :
    (disk : Disk) (path : Bytes) → exists disk path ≡ false → real_path disk path ≡ none
unfolding exists metadata real_path
real_path-absent disk path h = elim (Option-cases (chase 41 disk path)) [
  | inl absent ↦ absent
  | inr (q, there) ↦ let (node, stands) = chase-node 41 disk path q there in ground arith
]

module _ (succeeds : Bool) (mode : ℕ) (path : Bytes) (disk : Disk) where
  -- A directory is made only where nothing stands.
  pub create_dir_all-cases :
      ((create_dir_all succeeds mode path disk).1 ≡ disk)
      ⊎ ((disk path ≡ none)
          × ((create_dir_all succeeds mode path disk).1 ≡ update disk path (directory mode)))
  unfolding create_dir_all create_missing
  create_dir_all-cases = ground arith

  pub create_dir_all-Extends : Extends disk (create_dir_all succeeds mode path disk).1
  create_dir_all-Extends q node h = elim create_dir_all-cases [
    | inl same ↦ ap (λ (d : Disk). d q) same ∙ h
    | inr (fresh, made) ↦
        ap (λ (d : Disk). d q) made
        ∙ Extends-of_OnlyAt path disk (update disk path (directory mode)) fresh
            (update-OnlyAt disk path (directory mode)) q node h
  ]

  -- The permissions of a directory that was just made are its own.
  pub restricted-Extends :
      (permitted : Bool) (bits : ℕ)
      → exists disk path ≡ false
      → Extends disk
          (set_permissions permitted path bits (create_dir_all succeeds mode path disk).1).1
  unfolding set_permissions
  restricted-Extends permitted bits absent q node h = elim create_dir_all-cases [
    | inl same ↦ rw same (rw (real_path-absent disk path absent, set_permissions) h)
    | inr (fresh, made) ↦
        let new = update disk path (directory mode) in
        rw made (
          Extends-of_OnlyAt path disk (set_permissions permitted path bits new).1 fresh
            (OnlyAt-trans path disk new (set_permissions permitted path bits new).1
              (update-OnlyAt disk path (directory mode))
              (set_permissions-OnlyAt permitted path bits new
                (real_path-directory new path mode (update-same disk path (directory mode)))))
            q node h)
  ]
