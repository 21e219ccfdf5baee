-- ===== src/Coordinator/Keys/Complete.antt =====
-- When `generate_vault_keys` (src/keys.rs) succeeds.
use tesaurus.Prelude.{
  ◌≡◌, ◌≢◌, refl, sym, ap, ◌∙◌, ℕ, Bool, true, false, not, Bytes, [], ◌∷◌, ◌++◌, none, some, ok,
  arith, if◌then◌else◌, ◌==◌,
}
use mathlib.Core.List.{reverse}
use tesaurus.Bitcoin.{Miniscript, Network}
use tesaurus.Policy.Pin.{is_test_network}
use tesaurus.Coordinator.Action.{refuse_if, >>=-step}
use tesaurus.Coordinator.Failure.{Error}
use tesaurus.Coordinator.Files.{Disk, directory, FileIo, is_private, join, parent}
use tesaurus.Coordinator.Files.Extends.{OnlyAt}
use tesaurus.Coordinator.Tools.{Tools}
use tesaurus.Coordinator.Keys.{
  KeyRole, primary, override_role, agent, PublicVaultKeys, key_path, filename, generate, public_key,
  write_wif_file, refuse_existing, write_new_key, write_new_keys, generate_vault_keys,
}
use tesaurus.Coordinator.Keys.Succeeds.{IsHealthy, write_wif_file-succeeds}

abbrev tail : Bytes → Bytes
tail [] = []
tail (_ ∷ s) = s

abbrev head : Bytes → ℕ
head [] = 0
head (c ∷ _) = c

cancel : (d a b : Bytes) → d ++ a ≡ d ++ b → a ≡ b
cancel [] a b h = h
cancel (x ∷ d) a b h = cancel d a b (ap tail h)

join-empty : (dir name : Bytes) → reverse dir ≡ [] → join dir name ≡ name
unfolding join
join-empty dir name e = rw (e, join) refl

join-slash :
    (dir name r : Bytes) (last : ℕ) (slash : Bool)
    → reverse dir ≡ last ∷ r
    → (last == 47) ≡ slash
    → join dir name ≡ (if slash then dir ++ name else dir ++ 47 ∷ name)
unfolding join
join-slash dir name r last slash e h = rw (e, join) (rw h refl)

same_name :
    (dir a b : Bytes) (slash : Bool)
    → (if slash then dir ++ a else dir ++ 47 ∷ a) ≡ (if slash then dir ++ b else dir ++ 47 ∷ b)
    → a ≡ b
same_name dir a b true h = cancel dir a b h
same_name dir a b false h = ap tail (cancel dir (47 ∷ a) (47 ∷ b) h)

join_from : (r dir a b : Bytes) → reverse dir ≡ r → join dir a ≡ join dir b → a ≡ b
join_from [] dir a b e h = sym (join-empty dir a e) ∙ (h ∙ join-empty dir b e)
join_from (last ∷ r) dir a b e h = same_name dir a b (last == 47) (
    sym (join-slash dir a r last (last == 47) e refl)
    ∙ (h ∙ join-slash dir b r last (last == 47) e refl))

-- Files of one directory with different names have different paths.
pub join-injective : (dir a b : Bytes) → join dir a ≡ join dir b → a ≡ b
join-injective dir a b h = join_from (reverse dir) dir a b refl h

module _ (tools : Tools) (ms : Miniscript) (io : KeyRole → FileIo) (secret : KeyRole → Bytes)
    (keys_dir : Bytes) (network : Network) where
  written :
      (role : KeyRole) (disk : Disk) (mode : ℕ)
      → IsHealthy (io role)
      → disk (key_path keys_dir role) ≡ none
      → parent (key_path keys_dir role) ≡ some keys_dir
      → disk keys_dir ≡ some (directory mode)
      → is_private mode ≡ true
      → (text : Bytes) × (last : Disk) × (write_new_key tools ms io secret keys_dir network role
            disk
          ≡ (ok text, last))
        × OnlyAt (key_path keys_dir role) disk last
  unfolding write_new_key
  written role disk mode healthy absent has_dir there private =
      let key = generate tools role network (secret role) in
      let (last, writes, only) =
        write_wif_file-succeeds (io role) healthy tools key (key_path keys_dir role) keys_dir disk
          mode absent has_dir there private in
      (
        ms.display_key (public_key tools key),
        last,
        >>=-step (write_wif_file tools (io role) key (key_path keys_dir role)) _ disk tt last
            writes,
        only,
      )

  refused_none :
      (role : KeyRole) (disk : Disk)
      → disk (key_path keys_dir role) ≡ none
      → refuse_existing tools keys_dir role disk ≡ (ok tt, disk)
  unfolding refuse_existing
  refused_none role disk absent = rw absent refl

  -- The paths of the keys, seen from another one.
  other_paths :
      (a b : KeyRole) → filename a ≢ filename b → key_path keys_dir a ≢ key_path keys_dir b
  unfolding key_path
  other_paths a b differ h = differ (join-injective keys_dir (filename a) (filename b) h)

  dir_apart :
      (role : KeyRole) (disk : Disk) (mode : ℕ)
      → disk (key_path keys_dir role) ≡ none
      → disk keys_dir ≡ some (directory mode)
      → keys_dir ≢ key_path keys_dir role
  dir_apart role disk mode absent there h = ground (arith, absent, there, ap disk h)

  -- Where every call of the file system succeeds, keys are generated for a test network, if the
  -- directory of the keys exists and is private, no key file stands in it, and its path is, as
  -- written, the parent of the path of each key file, which excludes a path such as `keys/`.
  pub generate_vault_keys-succeeds :
      (disk : Disk) (mode : ℕ)
      → is_test_network network ≡ true
      → ((role : KeyRole) → IsHealthy (io role))
      → ((role : KeyRole) → disk (key_path keys_dir role) ≡ none)
      → ((role : KeyRole) → parent (key_path keys_dir role) ≡ some keys_dir)
      → disk keys_dir ≡ some (directory mode)
      → is_private mode ≡ true
      → (keys : PublicVaultKeys) × (last : Disk) × (generate_vault_keys tools ms io secret keys_dir
            network disk
          ≡ (ok keys, last))
  unfolding generate_vault_keys write_new_keys filename
  generate_vault_keys-succeeds disk mode test healthy absent has_dir there private =
      let (p, d, first, only1) =
        written primary disk mode (healthy primary) (absent primary) (has_dir primary) there
          private in
      let dir1 = only1 keys_dir (dir_apart primary disk mode (absent primary) there) ∙ there in
      let absent2 =
        only1 (key_path keys_dir override_role)
          (other_paths override_role primary (λ h. omega (arith, ap head h)))
        ∙ absent override_role in
      let (o, e, second, only2) =
        written override_role d mode (healthy override_role) absent2 (has_dir override_role) dir1
          private in
      let dir2 = only2 keys_dir (dir_apart override_role d mode absent2 dir1) ∙ dir1 in
      let absent3 =
        only2 (key_path keys_dir agent)
          (other_paths agent override_role (λ h. omega (arith, ap head h)))
        ∙ (only1 (key_path keys_dir agent)
              (other_paths agent primary (λ h. omega (arith, ap head h)))
            ∙ absent agent) in
      let (a, f, third, _) =
        written agent e mode (healthy agent) absent3 (has_dir agent) dir2 private in
      (
        record { primary_text = p; override_key = o; agent_text = a },
        f,
        >>=-step (refuse_if (not (is_test_network network)) Error.key) _ disk tt disk (rw test refl)
            ∙ (>>=-step (refuse_existing tools keys_dir primary) _ disk tt disk
                  (refused_none primary disk (absent primary))
                ∙ (>>=-step (refuse_existing tools keys_dir override_role) _ disk tt disk
                      (refused_none override_role disk (absent override_role))
                    ∙ (>>=-step (refuse_existing tools keys_dir agent) _ disk tt disk
                          (refused_none agent disk (absent agent))
                        ∙ (>>=-step (write_new_key tools ms io secret keys_dir network primary) _
                              disk p d first
                            ∙ (>>=-step
                                  (write_new_key tools ms io secret keys_dir network override_role)
                                  _ d o e second
                                ∙ >>=-step (write_new_key tools ms io secret keys_dir network agent)
                                    _ e a f third))))),
      )
