-- ===== src/Coordinator/Wallet/State/Saved.antt =====
-- What saving and loading the state file of a vault guarantee (src/wallet.rs).
use tesaurus.Prelude.{
  ℕ, ◌≡◌, ◌≢◌, refl, sym, ap, ◌∙◌, Bool, true, false, not, ◌==◌, Bytes, some, arith, ok, ok_or,
  ok_or-eq-ok, ok_injective,
}
use tesaurus.Bitcoin.{Miniscript}
use tesaurus.Coordinator.Action.{
  lift, refuse_if, >>=-ok, >>=-step, refuse_if-ok, refuse_if-Reads, Reads, >>=-Reads, lift-ok,
}
use tesaurus.Coordinator.Failure.{Error, CoreResult}
use tesaurus.Coordinator.Files.{
  file, Disk, FileIo, is_link, regular_check, read_to_string, make_parent, parent, open_truncate,
  owner_only,
}
use tesaurus.Coordinator.Files.Extends.{metadata-file}
use tesaurus.Coordinator.Files.Written.{
  opened-fill-OnlyAt, opened-fill-Written, open_truncate-Opens,
}
use tesaurus.Coordinator.Files.Steps.{
  >>=-KeepsAt, KeepsAt, Keeps-KeepsAt, refuse_if-Keeps, make_parent-Keeps,
}
use tesaurus.Coordinator.Tools.{Tools}
use tesaurus.Coordinator.Descriptor.{validate}
use tesaurus.Coordinator.Wallet.State.{VaultState, StateJson, load, save}

-- The JSON text of a state is read back as the state.
unfoldable pub ReadsState : StateJson → Type 0
ReadsState json =
    (state : VaultState) (raw : Bytes)
    → json.to_string_pretty state ≡ some raw
    → json.from_str raw ≡ some state

module _ (ms : Miniscript) (tools : Tools) (json : StateJson) where
  -- Loading a regular private file goes on with its text.
  loaded_from :
      (path raw : Bytes) (state : VaultState) (disk : Disk)
      → disk path ≡ some (file owner_only raw)
      → json.from_str raw ≡ some state
      → state.version ≡ 1
      → validate ms tools state.vault ≡ ok tt
      → load ms tools json true path disk ≡ (ok state, disk)
  unfolding load regular_check read_to_string
  loaded_from path raw state disk there decodes one valid =
      >>=-step (lift (regular_check Error.wallet (disk path))) _ disk tt disk
        (rw (there, regular_check) refl)
      ∙ (>>=-step (read_to_string true path) _ disk raw disk
            (rw (metadata-file disk path owner_only raw there, read_to_string) refl)
          ∙ (>>=-step (lift (ok_or (json.from_str raw) Error.json)) _ disk state disk
                (rw decodes refl)
              ∙ (>>=-step (refuse_if (not (state.version == 1)) Error.wallet) _ disk tt disk
                    (rw one refl)
                  ∙ (>>=-step (lift (validate ms tools state.vault)) _ disk tt disk (rw valid refl)
                      ∙ refl))))

  module _ (io : FileIo) (state : VaultState) (path : Bytes) where
    -- Where the JSON text of a state is read back, a state of version 1 that was saved is loaded
    -- again.
    pub save-load :
        (disk last : Disk)
        → ReadsState json
        → state.version ≡ 1
        → save ms tools json io state path disk ≡ (ok tt, last)
        → load ms tools json true path last ≡ (ok state, last)
    unfolding save ReadsState
    save-load disk last back one h =
        let (_, d, valid, r1) = >>=-ok (lift (validate ms tools state.vault)) _ disk h in
        let (_, e, _, r2) = >>=-ok (refuse_if (is_link (d path)) Error.wallet) _ d r1 in
        let (_, f, _, r3) = >>=-ok (make_parent io (parent path)) _ e r2 in
        let (raw, g, encodes, r4) =
          >>=-ok (lift (ok_or (json.to_string_pretty state) Error.json)) _ f r3 in
        let there =
          opened-fill-Written io path raw (open_truncate io.opens io.created_mode path) g last
            (open_truncate-Opens io.opens io.created_mode path) r4 in
        loaded_from path raw state last there
          (back state raw (
            ok_or-eq-ok (json.to_string_pretty state) Error.json raw (lift-ok _ raw f g encodes).0))
          one (lift-ok _ tt disk d valid).0

    pub save-Valid :
        (disk last : Disk)
        → save ms tools json io state path disk ≡ (ok tt, last)
        → validate ms tools state.vault ≡ ok tt
    unfolding save
    save-Valid disk last h =
        let (_, d, valid, _) = >>=-ok (lift (validate ms tools state.vault)) _ disk h in
        (lift-ok _ tt disk d valid).0

    -- However the calls of the file system end, saving a state changes nothing that stood at another
    -- path.
    pub save-KeepsAt : (p : Bytes) → p ≢ path → KeepsAt p (save ms tools json io state path)
    unfolding save
    save-KeepsAt p other =
        >>=-KeepsAt (lift (validate ms tools state.vault)) _ p (λ _ _ h. h)
          (λ _.
            >>=-KeepsAt (λ disk. refuse_if (is_link (disk path)) Error.wallet disk) _ p
              (λ disk.
                Keeps-KeepsAt (refuse_if (is_link (disk path)) Error.wallet) p
                  (refuse_if-Keeps (is_link (disk path)) Error.wallet) disk)
              (λ _.
                >>=-KeepsAt (make_parent io (parent path)) _ p
                  (Keeps-KeepsAt (make_parent io (parent path)) p
                    (make_parent-Keeps io (parent path)))
                  (λ _.
                    >>=-KeepsAt (lift (ok_or (json.to_string_pretty state) Error.json)) _ p
                      (λ _ _ h. h)
                      (λ raw disk node h.
                        opened-fill-OnlyAt io path raw (open_truncate io.opens io.created_mode path)
                          disk (open_truncate-Opens io.opens io.created_mode path) p other
                        ∙ h))))

  pub load-Reads : (reads : Bool) (path : Bytes) → Reads (load ms tools json reads path)
  unfolding load read_to_string
  load-Reads reads path =
      >>=-Reads (λ disk. lift (regular_check Error.wallet (disk path)) disk) _ (λ _. refl)
        (λ _.
          >>=-Reads (read_to_string reads path) _ (λ _. refl)
            (λ raw.
              >>=-Reads (lift (ok_or (json.from_str raw) Error.json)) _ (λ _. refl)
                (λ state.
                  >>=-Reads (refuse_if (not (state.version == 1)) Error.wallet) _
                    (refuse_if-Reads (not (state.version == 1)) Error.wallet)
                    (λ _.
                      >>=-Reads (lift (validate ms tools state.vault)) _ (λ _. refl)
                        (λ _ _. refl)))))

  version_one : (n : ℕ) → not (n == 1) ≡ false → n ≡ 1
  version_one n h = ground arith

  -- Loading changes nothing, and a state that is loaded has version 1 and a valid descriptor.
  pub load-Valid :
      (reads : Bool) (path : Bytes) (state : VaultState) (disk last : Disk)
      → load ms tools json reads path disk ≡ (ok state, last)
      → (state.version ≡ 1) × (validate ms tools state.vault ≡ ok tt) × (last ≡ disk)
  unfolding load
  load-Valid reads path state disk last h =
      let (_, d, _, r1) = >>=-ok (lift (regular_check Error.wallet (disk path))) _ disk h in
      let (raw, e, _, r2) = >>=-ok (read_to_string reads path) _ d r1 in
      let (found, f, _, r3) = >>=-ok (lift (ok_or (json.from_str raw) Error.json)) _ e r2 in
      let (_, g, tested, r4) = >>=-ok (refuse_if (not (found.version == 1)) Error.wallet) _ f r3 in
      let (_, i, valid, done) = >>=-ok (lift (validate ms tools found.vault)) _ g r4 in
      let is_found : found ≡ state =
        ok_injective found state (lift-ok (ok found) state i last done).0 in
      (
        ap (λ (s : VaultState). s.version) (sym is_found)
            ∙ version_one found.version (refuse_if-ok _ Error.wallet f g tested).0,
        ap (λ (s : VaultState). validate ms tools s.vault) (sym is_found)
            ∙ (lift-ok _ tt g i valid).0,
        sym (ap (λ (r : CoreResult VaultState × Disk). r.1) h) ∙ load-Reads reads path disk,
      )
