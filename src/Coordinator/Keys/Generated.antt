-- ===== src/Coordinator/Keys/Generated.antt =====
-- `generate_vault_keys` (src/keys.rs): the three key files, and reading them back.
use tesaurus.Prelude.{
  ◌≡◌, sym, ap, ◌∙◌, true, not, Bytes, some, none, arith, ok, is_some, ok_injective,
}
use tesaurus.Bitcoin.{Miniscript, Network}
use tesaurus.Policy.Pin.{is_test_network}
use tesaurus.Coordinator.Action.{refuse_if, >>=-state, >>=-ok, Reads, refuse_if-Reads, refuse_if-ok}
use tesaurus.Coordinator.Failure.{Error, CoreResult}
use tesaurus.Coordinator.Files.{Node, file, Disk, FileIo, owner_only}
use tesaurus.Coordinator.Files.Extends.{Extends}
use tesaurus.Coordinator.Files.Steps.{>>=-Keeps, Keeps, Reads-Keeps, Keeps-run, refuse_if-Keeps}
use tesaurus.Coordinator.Tools.{Tools}
use tesaurus.Coordinator.Keys.{
  KeyRole, primary, override_role, agent, VaultKey, PublicVaultKeys, key_path, generate, load_key,
  wif_line, write_wif_file, public_key, refuse_existing, write_new_key, write_new_keys,
  generate_vault_keys,
}
use tesaurus.Coordinator.Keys.Loaded.{WifReadsBack, load_key-file}
use tesaurus.Coordinator.Keys.Written.{write_wif_file-Extends, write_wif_file-Written}

-- The text of a role's public key.
pub text_of : KeyRole → PublicVaultKeys → Bytes
text_of primary keys = keys.primary_text
text_of override_role keys = keys.override_key
text_of agent keys = keys.agent_text

module _ (tools : Tools) where
  module _ (ms : Miniscript) (io : KeyRole → FileIo) (secret : KeyRole → Bytes) (keys_dir : Bytes)
      (network : Network) where
    refuse_existing-Reads : (role : KeyRole) → Reads (refuse_existing tools keys_dir role)
    unfolding refuse_existing
    refuse_existing-Reads role disk =
        refuse_if-Reads (is_some (disk (key_path keys_dir role))) Error.key disk

    tested_network :
        (disk last : Disk)
        → refuse_if (not (is_test_network network)) Error.key disk ≡ (ok tt, last)
        → (is_test_network network ≡ true) × (last ≡ disk)
    tested_network disk last h =
        let (test, same) = refuse_if-ok (not (is_test_network network)) Error.key disk last h in
        (ground arith, same)

    refuse_existing-absent :
        (role : KeyRole) (disk last : Disk)
        → refuse_existing tools keys_dir role disk ≡ (ok tt, last)
        → (disk (key_path keys_dir role) ≡ none) × (last ≡ disk)
    unfolding refuse_existing
    refuse_existing-absent role disk last h = ground arith

    abbrev new_key : KeyRole → VaultKey
    new_key role = generate tools role network (secret role)

    write_new_key-Extends :
        (role : KeyRole) (disk : Disk)
        → Extends disk (write_new_key tools ms io secret keys_dir network role disk).1
    unfolding write_new_key
    write_new_key-Extends role disk =
        >>=-state (write_wif_file tools (io role) (new_key role) (key_path keys_dir role)) _ disk
          (Extends disk)
          (write_wif_file-Extends (io role) tools (new_key role) (key_path keys_dir role) disk)
          (λ _ d _ kept. kept)

    write_new_key-Written :
        (role : KeyRole) (disk last : Disk) (text : Bytes)
        → write_new_key tools ms io secret keys_dir network role disk ≡ (ok text, last)
        → (text ≡ ms.display_key (public_key tools (new_key role)))
          × (last (key_path keys_dir role) ≡ some (file owner_only (wif_line tools (new_key role))))
    unfolding write_new_key
    write_new_key-Written role disk last text h =
        let (_, d, writes, end) =
          >>=-ok (write_wif_file tools (io role) (new_key role) (key_path keys_dir role)) _ disk
            h in
        let there =
          write_wif_file-Written (io role) tools (new_key role) (key_path keys_dir role) disk d
            writes in
        (ground arith, ground arith)

    refuse_existing-Keeps : (role : KeyRole) → Keeps (refuse_existing tools keys_dir role)
    refuse_existing-Keeps role =
        Reads-Keeps (refuse_existing tools keys_dir role) (refuse_existing-Reads role)

    write_new_keys-Keeps : Keeps (write_new_keys tools ms io secret keys_dir network)
    unfolding write_new_keys
    write_new_keys-Keeps =
        >>=-Keeps (write_new_key tools ms io secret keys_dir network primary) _
          (write_new_key-Extends primary)
          (λ _.
            >>=-Keeps (write_new_key tools ms io secret keys_dir network override_role) _
              (write_new_key-Extends override_role)
              (λ _.
                >>=-Keeps (write_new_key tools ms io secret keys_dir network agent) _
                  (write_new_key-Extends agent) (λ _ disk p node h. h)))

    -- However the calls of the file system end, generating keys changes no file, link or
    -- directory that was on the disk.
    pub generate_vault_keys-Extends :
        (disk : Disk)
        → Extends disk (generate_vault_keys tools ms io secret keys_dir network disk).1
    unfolding generate_vault_keys
    generate_vault_keys-Extends =
        >>=-Keeps (refuse_if (not (is_test_network network)) Error.key) _
          (refuse_if-Keeps (not (is_test_network network)) Error.key)
          (λ _.
            >>=-Keeps (refuse_existing tools keys_dir primary) _ (refuse_existing-Keeps primary)
              (λ _.
                >>=-Keeps (refuse_existing tools keys_dir override_role) _
                  (refuse_existing-Keeps override_role)
                  (λ _.
                    >>=-Keeps (refuse_existing tools keys_dir agent) _ (refuse_existing-Keeps agent)
                      (λ _. write_new_keys-Keeps))))

    -- What a role's step of the second loop leaves.
    abbrev KeyStands : KeyRole → PublicVaultKeys → Disk → Type 0
    KeyStands role keys disk =
        (text_of role keys ≡ ms.display_key (public_key tools (new_key role)))
        × (disk (key_path keys_dir role) ≡ some (file owner_only (wif_line tools (new_key role))))

    kept :
        (role : KeyRole) (disk last : Disk) (text p : Bytes) (node : Node)
        → write_new_key tools ms io secret keys_dir network role disk ≡ (ok text, last)
        → disk p ≡ some node
        → last p ≡ some node
    kept role disk last text p node h =
        Keeps-run (write_new_key tools ms io secret keys_dir network role) disk last (ok text) p
          node (write_new_key-Extends role) h

    write_new_keys-Written :
        (disk last : Disk) (keys : PublicVaultKeys)
        → write_new_keys tools ms io secret keys_dir network disk ≡ (ok keys, last)
        → (role : KeyRole) → KeyStands role keys last
    unfolding write_new_keys text_of
    write_new_keys-Written disk last keys h role =
        let (p, d, first, rest) =
          >>=-ok (write_new_key tools ms io secret keys_dir network primary) _ disk h in
        let (o, e, second, rest2) =
          >>=-ok (write_new_key tools ms io secret keys_dir network override_role) _ d rest in
        let (a, f, third, done) =
          >>=-ok (write_new_key tools ms io secret keys_dir network agent) _ e rest2 in
        let same : f ≡ last = ap (λ (r : CoreResult PublicVaultKeys × Disk). r.1) done in
        let texts =
          ok_injective (record { primary_text = p; override_key = o; agent_text = a }) keys
            (ap (λ (r : CoreResult PublicVaultKeys × Disk). r.0) done) in
        let stands1 = write_new_key-Written primary disk d p first in
        let stands2 = write_new_key-Written override_role d e o second in
        let stands3 = write_new_key-Written agent e f a third in
        let at_end = λ (path : Bytes) (node : Node) (there : f path ≡ some node).
          ap (λ (disk' : Disk). disk' path) (sym same) ∙ there in
        elim role as (λ r. KeyStands r keys last) [
          | primary ↦ (
            ap (text_of primary) (sym texts) ∙ stands1.0,
            at_end _ _ (kept agent e f a _ _ third (kept override_role d e o _ _ second stands1.1)),
          )
          | override_role ↦ (
            ap (text_of override_role) (sym texts) ∙ stands2.0,
            at_end _ _ (kept agent e f a _ _ third stands2.1),
          )
          | agent ↦ (ap (text_of agent) (sym texts) ∙ stands3.0, at_end _ _ stands3.1)
        ]

    -- Where the WIF text of a key is read back: when the three keys were written, loading the key
    -- of each role gives the key of its secret, and its public key was returned.
    pub generate_vault_keys-load_key :
        (disk last : Disk) (keys : PublicVaultKeys) (role : KeyRole)
        → WifReadsBack tools
        → generate_vault_keys tools ms io secret keys_dir network disk ≡ (ok keys, last)
        → (load_key tools true keys_dir role last
            ≡ (ok (generate tools role network (secret role)), last))
          × (text_of role keys
              ≡ ms.display_key (public_key tools (generate tools role network (secret role))))
    unfolding generate_vault_keys generate
    generate_vault_keys-load_key disk last keys role back h =
        let (_, d, _, r1) = >>=-ok (refuse_if (not (is_test_network network)) Error.key) _ disk h in
        let (_, e, _, r2) = >>=-ok (refuse_existing tools keys_dir primary) _ d r1 in
        let (_, f, _, r3) = >>=-ok (refuse_existing tools keys_dir override_role) _ e r2 in
        let (_, g, _, r4) = >>=-ok (refuse_existing tools keys_dir agent) _ f r3 in
        let stands = write_new_keys-Written g last keys r4 role in
        (
          load_key-file tools keys_dir role (tools.private_key_new (secret role) network) last back
              stands.1,
          stands.0,
        )

    -- Keys are generated only on regtest, testnet or signet, and only where no key file of the vault
    -- stood.
    pub generate_vault_keys-absent :
        (disk last : Disk) (keys : PublicVaultKeys) (role : KeyRole)
        → generate_vault_keys tools ms io secret keys_dir network disk ≡ (ok keys, last)
        → (is_test_network network ≡ true) × (disk (key_path keys_dir role) ≡ none)
    unfolding generate_vault_keys
    generate_vault_keys-absent disk last keys role h =
        let (_, d, tested, r1) =
          >>=-ok (refuse_if (not (is_test_network network)) Error.key) _ disk h in
        let (_, e, free1, r2) = >>=-ok (refuse_existing tools keys_dir primary) _ d r1 in
        let (_, f, free2, r3) = >>=-ok (refuse_existing tools keys_dir override_role) _ e r2 in
        let (_, g, free3, _) = >>=-ok (refuse_existing tools keys_dir agent) _ f r3 in
        let none1 = refuse_existing-absent primary d e free1 in
        let none2 = refuse_existing-absent override_role e f free2 in
        let none3 = refuse_existing-absent agent f g free3 in
        let same = tested_network disk d tested in
        (
          same.0,
          elim role as (λ r. disk (key_path keys_dir r) ≡ none) [
            | primary ↦ ap (λ (x : Disk). x (key_path keys_dir primary)) (sym same.1) ∙ none1.0
            | override_role ↦
                ap (λ (x : Disk). x (key_path keys_dir override_role)) (sym (none1.1 ∙ same.1))
                ∙ none2.0
            | agent ↦
                ap (λ (x : Disk). x (key_path keys_dir agent)) (sym (none2.1 ∙ (none1.1 ∙ same.1)))
                ∙ none3.0
          ],
        )
