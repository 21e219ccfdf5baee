-- ===== src/Coordinator/Files/Written.antt =====
-- What opening a new file and filling it leaves on the disk.
use tesaurus.Prelude.{
  ℕ, ◌≡◌, ◌⊎◌, inl, inr, refl, sym, ap, ◌∙◌, Bool, true, false, Bytes, [], some, none, arith, ok,
  err, Option-cases,
}
use tesaurus.Coordinator.Action.{◌>>=◌, >>=-state, >>=-ok}
use tesaurus.Coordinator.Failure.{Error, CoreResult}
use tesaurus.Coordinator.Files.{
  file, link, directory, Disk, update, FileIo, Fs, set_permissions, open_new, open_truncate,
  truncated, created, put, write_all, owner_only, fill,
}
use tesaurus.Coordinator.Files.Extends.{
  Extends, OnlyAt, update-same, update-OnlyAt, OnlyAt-trans, Extends-of_OnlyAt, chmod-file,
  real_path-file, set_permissions-OnlyAt, write_all-OnlyAt,
}
use tesaurus.Coordinator.Files.Steps.{check_io-Reads}

pub open_new-cases :
    (succeeds : Bool) (mode : ℕ) (path : Bytes) (disk : Disk)
    → (open_new succeeds mode path disk ≡ (err Error.io, disk))
      ⊎ ((disk path ≡ none)
          × (open_new succeeds mode path disk ≡ (ok tt, update disk path (file mode []))))
unfolding open_new created
open_new-cases succeeds mode path disk = ground arith

-- An operation that leaves an empty file at the path, or fails and leaves the disk.
abbrev pub Opens : Bytes → Fs (Unit {0}) → Type 0
Opens path opener =
    (disk : Disk)
    → ((e : Error) × (opener disk ≡ (err e, disk)))
      ⊎ ((mode : ℕ) × (opener disk ≡ (ok tt, update disk path (file mode []))))

pub open_new-Opens :
    (succeeds : Bool) (mode : ℕ) (path : Bytes) → Opens path (open_new succeeds mode path)
open_new-Opens succeeds mode path disk = elim (open_new-cases succeeds mode path disk) [
  | inl refused ↦ inl (Error.io, refused)
  | inr (_, opened) ↦ inr (mode, opened)
]

pub open_truncate-Opens :
    (succeeds : Bool) (mode : ℕ) (path : Bytes) → Opens path (open_truncate succeeds mode path)
unfolding open_truncate truncated
open_truncate-Opens false mode path disk = inl (Error.io, refl)
open_truncate-Opens true mode path disk = elim (Option-cases (disk path)) [
  | inl absent ↦ inr (mode, rw (absent, truncated) refl)
  | inr (file old contents, there) ↦ inr (old, rw (there, truncated) refl)
  | inr (link target, there) ↦ inl (Error.io, rw (there, truncated) refl)
  | inr (directory bits, there) ↦ inl (Error.io, rw (there, truncated) refl)
]

module _ (io : FileIo) (path contents : Bytes) where
  pub fill-OnlyAt :
      (disk : Disk) (mode : ℕ) (old : Bytes)
      → disk path ≡ some (file mode old)
      → OnlyAt path disk (fill io path contents disk).1
  unfolding fill
  fill-OnlyAt disk mode old there =
      let permit = set_permissions io.set_permissions path owner_only in
      >>=-state permit _ disk (OnlyAt path disk)
        (set_permissions-OnlyAt io.set_permissions path owner_only disk
          (real_path-file disk path mode old there))
        (λ _ d _ same.
          >>=-state (write_all io.write path contents) _ d (OnlyAt path disk)
            (OnlyAt-trans path disk d (write_all io.write path contents d).1 same
              (write_all-OnlyAt io.write path contents d))
            (λ _ e _ kept q differs.
              ap (λ (f : Disk). f q) (check_io-Reads io.sync e) ∙ kept q differs))

  permitted :
      (disk last : Disk) (mode : ℕ) (old : Bytes)
      → disk path ≡ some (file mode old)
      → set_permissions io.set_permissions path owner_only disk ≡ (ok tt, last)
      → last path ≡ some (file owner_only old)
  unfolding set_permissions
  permitted disk last mode old there h = ground (
    arith,
    real_path-file disk path mode old there,
    chmod-file disk path owner_only mode old there,
    update-same disk path (file owner_only old),
  )

  written :
      (disk last : Disk) (mode : ℕ) (old : Bytes)
      → disk path ≡ some (file mode old)
      → write_all io.write path contents disk ≡ (ok tt, last)
      → last path ≡ some (file mode contents)
  unfolding write_all put
  written disk last mode old there h = ground (arith, update-same disk path (file mode contents))

  pub fill-Written :
      (disk last : Disk) (mode : ℕ) (old : Bytes)
      → disk path ≡ some (file mode old)
      → fill io path contents disk ≡ (ok tt, last)
      → last path ≡ some (file owner_only contents)
  unfolding fill
  fill-Written disk last mode old there h =
      let (_, d, permits, rest) =
        >>=-ok (set_permissions io.set_permissions path owner_only) _ disk h in
      let (_, e, writes, synced) = >>=-ok (write_all io.write path contents) _ d rest in
      let there' = written d e owner_only old (permitted disk d mode old there permits) writes in
      let same =
        sym (check_io-Reads io.sync e) ∙ ap (λ (r : CoreResult (Unit {0}) × Disk). r.1) synced in
      ap (λ (f : Disk). f path) (sym same) ∙ there'

  -- A new file changes nothing that was on the disk.
  pub open_new-fill-Extends :
      (succeeds : Bool) (mode : ℕ) (disk : Disk)
      → Extends disk ((open_new succeeds mode path >>= λ _. fill io path contents) disk).1
  open_new-fill-Extends succeeds mode disk q node h =
      elim (open_new-cases succeeds mode path disk) [
        | inl refused ↦ rw refused h
        | inr (fresh, opened) ↦
            let new = update disk path (file mode []) in
            rw opened (
              Extends-of_OnlyAt path disk (fill io path contents new).1 fresh
                (OnlyAt-trans path disk new (fill io path contents new).1
                  (update-OnlyAt disk path (file mode []))
                  (fill-OnlyAt new mode [] (update-same disk path (file mode []))))
                q node h)
      ]

  pub opened-fill-OnlyAt :
      (opener : Fs (Unit {0})) (disk : Disk)
      → Opens path opener
      → OnlyAt path disk ((opener >>= λ _. fill io path contents) disk).1
  opened-fill-OnlyAt opener disk opens q differs = elim (opens disk) [
    | inl (e, refused) ↦ rw refused refl
    | inr (mode, opened) ↦
        let new = update disk path (file mode []) in
        rw opened (
          OnlyAt-trans path disk new (fill io path contents new).1
            (update-OnlyAt disk path (file mode []))
            (fill-OnlyAt new mode [] (update-same disk path (file mode []))) q differs)
  ]

  pub opened-fill-Written :
      (opener : Fs (Unit {0})) (disk last : Disk)
      → Opens path opener
      → (opener >>= λ _. fill io path contents) disk ≡ (ok tt, last)
      → last path ≡ some (file owner_only contents)
  opened-fill-Written opener disk last opens h =
      let (_, d, succeeds, fills) = >>=-ok opener _ disk h in
      elim (opens disk) [
        | inl (e, refused) ↦ ground arith
        | inr (mode, opened) ↦
            fill-Written d last mode []
              (ap (λ (r : CoreResult (Unit {0}) × Disk). r.1 path) (sym succeeds ∙ opened)
                ∙ update-same disk path (file mode []))
              fills
      ]
