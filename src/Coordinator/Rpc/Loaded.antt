-- ===== src/Coordinator/Rpc/Loaded.antt =====
-- The wallet of the node (src/rpc.rs, `ensure_wallet`), and calls that leave the disk and send nothing.
use tesaurus.Prelude.{
  ◌≡◌, refl, ap, ◌∙◌, ◌⊎◌, inl, inr, Bool, true, false, Bool-cases, Bytes, [], ◌∷◌, ◌++◌, Result,
  ok, err, arith, ok_or, is_some, Option-cases,
}
use mathlib.Core.Path.{subst}
use tesaurus.Coordinator.Descriptor.{VaultDescriptor, validate}
use tesaurus.Bitcoin.{Miniscript, Network-discrete}
use tesaurus.Policy.Pin.{codes}
use tesaurus.Coordinator.Action.{Action, ◌>>=◌, lift, refuse_if, >>=-state}
use tesaurus.Coordinator.Failure.{Error, CoreResult}
use tesaurus.Coordinator.Tools.{Tools}
use tesaurus.Coordinator.Config.{strip_prefix}
use tesaurus.Coordinator.Config.Loopback.{strip_prefix_lem}
use tesaurus.Coordinator.Rpc.{
  Client, Call, Core, World, rpc_result, call, attempt, contains, already_loaded, after_create,
  load_again, create_missing, ensure_wallet, block_count, import_watch_only,
  import_watch_descriptor,
}

at_start : (s t : Bytes) → is_some (strip_prefix s t) ≡ true → (after : Bytes) × (t ≡ s ++ after)
at_start s t h = elim (Option-cases (strip_prefix s t)) [
  | inl missing ↦ ground (arith, missing, h)
  | inr (after, found) ↦ (after, strip_prefix_lem s t after found)
]

contains_lem :
    (s t : Bytes)
    → contains s t ≡ true
    → (before : Bytes) × (after : Bytes) × (t ≡ before ++ (s ++ after))
unfolding contains
contains_lem s [] h = let (after, e) = at_start s [] h in ([], after, e)
contains_lem s (c ∷ t) h = elim (Bool-cases (is_some (strip_prefix s (c ∷ t)))) [
  | inl here ↦ let (after, e) = at_start s (c ∷ t) here in ([], after, e)
  | inr later ↦
      let (before, after, e) = contains_lem s t (ground (arith, h, later)) in
      (c ∷ before, after, ap (λ l. c ∷ l) e)
]

rpc_result_lem : (reply : Result Bytes (Unit {0})) → rpc_result reply ≡ ok tt → reply ≡ ok tt
rpc_result_lem (ok _) h = refl
rpc_result_lem (err msg) h = ground arith

already_loaded_lem :
    (reply : Result Bytes (Unit {0}))
    → already_loaded reply ≡ true
    → (reply ≡ ok tt)
      ⊎ ((before : Bytes) × (after : Bytes) × (reply
            ≡ err (before ++ (codes "already loaded" ++ after))))
unfolding already_loaded
already_loaded_lem (ok _) h = inl refl
already_loaded_lem (err msg) h =
    let (before, after, e) = contains_lem (codes "already loaded") msg h in
    inr (before, after, ap err e)

module _ {W : Type 0} where
  -- An action that leaves the disk and sends no transaction.
  abbrev pub Quiet : {A : Type 0} → Action (World W) A → Type 0
  Quiet m = (w : World W) → ((m w).1.disk ≡ w.disk) × ((m w).1.sent ≡ w.sent)

  pub >>=-Quiet :
      {A B : Type 0} (m : Action (World W) A) (k : A → Action (World W) B)
      → Quiet m
      → ((a : A) → Quiet (k a))
      → Quiet (m >>= k)
  >>=-Quiet m k first next w =
      >>=-state m k w (λ d. (d.disk ≡ w.disk) × (d.sent ≡ w.sent)) (first w)
        (λ a d _ same. (((next a d).0 ∙ same.0), ((next a d).1 ∙ same.1)))

  pub refuse_if-Quiet : (refused : Bool) (e : Error) → Quiet (refuse_if refused e)
  refuse_if-Quiet true e w = (refl, refl)
  refuse_if-Quiet false e w = (refl, refl)

  pub lift-Quiet : {A : Type 0} (r : CoreResult A) → Quiet (lift r)
  lift-Quiet r w = (refl, refl)

  pub call-Quiet : {A : Type 0} (f : Call W A) → Quiet (call f)
  call-Quiet f w = (refl, refl)

module _ {W : Type 0} (core : Core W) where
  load_again-Quiet :
      (client : Client) (name : Bytes) (exists : Bool) → Quiet (load_again core client name exists)
  unfolding load_again
  load_again-Quiet client name true w = (refl, refl)
  load_again-Quiet client name false w = (refl, refl)

  after_create-Quiet :
      (client : Client) (name : Bytes) (made : Result Bytes (Unit {0}))
      → Quiet (after_create core client name made)
  unfolding after_create
  after_create-Quiet client name (ok _) = λ w. (refl, refl)
  after_create-Quiet client name (err msg) =
      load_again-Quiet client name (contains (codes "already exists") msg)

  create_missing-Quiet :
      (client : Client) (name : Bytes) (loaded : Bool)
      → Quiet (create_missing core client name loaded)
  unfolding create_missing
  create_missing-Quiet client name true = λ w. (refl, refl)
  create_missing-Quiet client name false =
      >>=-Quiet (attempt (core.create_wallet client name)) (after_create core client name)
        (λ _. (refl, refl)) (after_create-Quiet client name)

  pub ensure_wallet-Quiet :
      (client : Client) (name : Bytes) → Quiet (ensure_wallet core client name)
  unfolding ensure_wallet
  ensure_wallet-Quiet client name =
      >>=-Quiet (attempt (core.load_wallet client name))
        (λ loaded. create_missing core client name (already_loaded loaded)) (λ _. (refl, refl))
        (λ loaded. create_missing-Quiet client name (already_loaded loaded))

  pub block_count-Quiet : (client : Client) → Quiet (block_count core client)
  unfolding block_count
  block_count-Quiet client w = (refl, refl)

  pub import_watch_only-Quiet :
      (ms : Miniscript) (tools : Tools) (client : Client) (vault : VaultDescriptor)
      → Quiet (import_watch_only core ms tools client vault)
  unfolding import_watch_only import_watch_descriptor
  import_watch_only-Quiet ms tools client vault =
      >>=-Quiet (lift (validate ms tools vault)) _ (λ _. (refl, refl))
        (λ _.
          >>=-Quiet
            (call (core.import_descriptors client vault.descriptor (codes "tesaurus-vault"))) _
            (λ _. (refl, refl))
            (λ res.
              >>=-Quiet (lift (ok_or res Error.wallet)) _ (λ _. (refl, refl))
                (λ _ _. (refl, refl))))

  -- What the node documents of its wallets: a wallet is loaded after `loadwallet` succeeds or answers
  -- an error whose text says that it is already loaded, and after `createwallet` succeeds.
  pub record LoadsWallets (Loaded : Bytes → W → Type 0) : Type 0 where
    pub load :
        (client : Client) (name : Bytes) (w : W)
        → (core.load_wallet client name w).0 ≡ ok tt
        → Loaded name (core.load_wallet client name w).1
    pub load_twice :
        (client : Client) (name : Bytes) (w : W) (before after : Bytes)
        → (core.load_wallet client name w).0 ≡ err (before ++ (codes "already loaded" ++ after))
        → Loaded name (core.load_wallet client name w).1
    pub create :
        (client : Client) (name : Bytes) (w : W)
        → (core.create_wallet client name w).0 ≡ ok tt
        → Loaded name (core.create_wallet client name w).1

  module _ (Loaded : Bytes → W → Type 0) (laws : LoadsWallets Loaded) (client : Client)
      (name : Bytes) where
    already_loaded-Loaded :
        (w : W)
        → already_loaded (core.load_wallet client name w).0 ≡ true
        → Loaded name (core.load_wallet client name w).1
    already_loaded-Loaded w h = elim (already_loaded_lem (core.load_wallet client name w).0 h) [
      | inl loads ↦ laws.load client name w loads
      | inr (before, after, says) ↦ laws.load_twice client name w before after says
    ]

    load_again-Loaded :
        (exists : Bool) (w last : World W)
        → load_again core client name exists w ≡ (ok tt, last)
        → Loaded name last.core
    unfolding load_again
    load_again-Loaded false w last h = ground arith
    load_again-Loaded true w last h =
        let answered : rpc_result (core.load_wallet client name w.core).0 ≡ ok tt =
          ap (λ (r : CoreResult (Unit {0}) × World W). r.0) h in
        subst (λ (v : W). Loaded name v) (ap (λ (r : CoreResult (Unit {0}) × World W). r.1.core) h)
          (laws.load client name w.core
            (rpc_result_lem (core.load_wallet client name w.core).0 answered))

    after_create-Loaded :
        (made : Result Bytes (Unit {0})) (w last : World W)
        → (made ≡ ok tt → Loaded name w.core)
        → after_create core client name made w ≡ (ok tt, last)
        → Loaded name last.core
    unfolding after_create
    after_create-Loaded (ok _) w last created h =
        subst (λ (v : W). Loaded name v) (ap (λ (r : CoreResult (Unit {0}) × World W). r.1.core) h)
          (created refl)
    after_create-Loaded (err msg) w last created h =
        load_again-Loaded (contains (codes "already exists") msg) w last h

    create_missing-Loaded :
        (loaded : Bool) (w last : World W)
        → (loaded ≡ true → Loaded name w.core)
        → create_missing core client name loaded w ≡ (ok tt, last)
        → Loaded name last.core
    unfolding create_missing
    create_missing-Loaded true w last was h =
        subst (λ (v : W). Loaded name v) (ap (λ (r : CoreResult (Unit {0}) × World W). r.1.core) h)
          (was refl)
    create_missing-Loaded false w last was h =
        after_create-Loaded (core.create_wallet client name w.core).0
          (record w { core = (core.create_wallet client name w.core).1 }) last
          (laws.create client name w.core) h

    -- When `ensure_wallet` returns, the wallet is loaded, on whichever of its paths.
    pub ensure_wallet-Loaded :
        (w last : World W)
        → ensure_wallet core client name w ≡ (ok tt, last)
        → Loaded name last.core
    unfolding ensure_wallet
    ensure_wallet-Loaded w last h =
        create_missing-Loaded (already_loaded (core.load_wallet client name w.core).0)
          (record w { core = (core.load_wallet client name w.core).1 }) last
          (already_loaded-Loaded w.core) h
