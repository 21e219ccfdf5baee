-- ===== src/Coordinator/Spend/Build/Signed.antt =====
-- What the signing loop of `build_and_sign` in src/spend.rs makes of the unsigned transaction.
use tesaurus.Prelude.{
  ℕ, suc, ◌≡◌, ◌≢◌, refl, ap, sym, ◌∙◌, Bool, Bytes, List, [], ◌∷◌, ◌++◌, map, Option, some, arith,
  ok, length, length-append, append_assoc, append_nil, >>=-eq-ok, ok_or, reject_if, not, is_empty,
}
use tesaurus.Coordinator.Failure.{Error}
use tesaurus.Bitcoin.{Crates, Miniscript, PublicKey, EcdsaSignature, TxIn, Transaction}
use tesaurus.Coordinator.Tools.{Tools}
use tesaurus.Coordinator.Wallet.{VaultUtxo}
use tesaurus.Coordinator.Spend.Build.{
  set_witness, unsigned_input, signature_by, sign_input, sign_inputs,
}

-- An input spends a coin with a sequence and carries a witness.
abbrev pub Signs : ℕ → VaultUtxo → TxIn → Type 0
Signs sequence u i = (i.previous_output ≡ u.outpoint) × (i.sequence ≡ sequence) × (i.witness ≢ [])

-- The inputs spend the coins, one each, in order.
abbrev pub AreSigned : ℕ → List VaultUtxo → List TxIn → Type 0
AreSigned sequence [] [] = Unit
AreSigned sequence (u ∷ us) (i ∷ is) = Signs sequence u i × AreSigned sequence us is
AreSigned sequence _ _ = ⊥

AreSigned-append :
    (sequence : ℕ) (us vs : List VaultUtxo) (is js : List TxIn)
    → AreSigned sequence us is
    → AreSigned sequence vs js
    → AreSigned sequence (us ++ vs) (is ++ js)
AreSigned-append sequence [] vs [] js h k = k
AreSigned-append sequence (u ∷ us) vs (i ∷ is) js h k =
    (h.0, AreSigned-append sequence us vs is js h.1 k)
AreSigned-append sequence [] vs (i ∷ is) js h k = absurd h
AreSigned-append sequence (u ∷ us) vs [] js h k = absurd h

set_witness-append :
    (w : List Bytes) (is js : List TxIn) (i : TxIn)
    → set_witness (length is) w (is ++ i ∷ js) ≡ (is ++ record i { witness = w } ∷ js)
unfolding set_witness
set_witness-append w [] js i = refl
set_witness-append w (x ∷ is) js i = ap (λ l. x ∷ l) (set_witness-append w is js i)

-- A satisfaction is never the empty witness: a wsh witness ends with its script.
abbrev pub HasWitness : Tools → Type 0
HasWitness tools =
    (desc : Bytes) (sigs : PublicKey → Option EcdsaSignature) (older : Bool)
    (satisfied : List Bytes × Bytes)
    → tools.get_satisfaction desc sigs older ≡ some satisfied
    → satisfied.0 ≢ []

module _ (lib : Crates) (ms : Miniscript) (tools : Tools) (desc witness_script : Bytes)
    (older : Bool) (keys : List Bytes) (law : HasWitness tools) where
  step_lem :
      (vin : ℕ) (u : VaultUtxo) (tx tx' : Transaction)
      → sign_input lib ms tools desc witness_script older keys vin u tx ≡ ok tx'
      → (w : List Bytes) × (w ≢ []) × (tx' ≡ record tx { input = set_witness vin w tx.input })
  unfolding sign_input
  step_lem vin u tx tx' h =
      let (digest, _, h₁) =
        >>=-eq-ok
          (ok_or (tools.p2wsh_signature_hash tx vin witness_script u.txout.value) Error.spend) _
          h in
      let (satisfied, found, h₂) =
        >>=-eq-ok
          (ok_or (tools.get_satisfaction desc (signature_by lib ms tools keys digest) older)
            Error.spend)
          _ h₁ in
      let (_, _, last) = >>=-eq-ok (reject_if (not (is_empty satisfied.1)) Error.spend) _ h₂ in
      (
        satisfied.0,
        law desc (signature_by lib ms tools keys digest) older satisfied (ground (arith, found)),
        cc last,
      )

  -- The loop keeps all but the witnesses, and gives every input one.
  pub sign_inputs_lem :
      (sequence vin : ℕ) (before rest : List VaultUtxo) (signed : List TxIn) (tx tx' : Transaction)
      → length signed ≡ vin
      → AreSigned sequence before signed
      → tx.input ≡ signed ++ map (unsigned_input sequence) rest
      → sign_inputs lib ms tools desc witness_script older keys vin rest tx ≡ ok tx'
      → (tx'.version ≡ tx.version)
        × (tx'.lock_time ≡ tx.lock_time)
        × (tx'.output ≡ tx.output)
        × AreSigned sequence (before ++ rest) tx'.input
  unfolding sign_inputs
  sign_inputs_lem sequence vin before [] signed tx tx' at_vin k e h =
      let done : tx' ≡ tx = cc h in
      let same : tx'.input ≡ signed =
        ap (λ (t : Transaction). t.input) done ∙ e ∙ append_nil signed in
      (
        ap (λ (t : Transaction). t.version) done,
        ap (λ (t : Transaction). t.lock_time) done,
        ap (λ (t : Transaction). t.output) done,
        rw (append_nil before) (rw same k),
      )
  sign_inputs_lem sequence vin before (u ∷ rest) signed tx tx' at_vin k e h =
      let (tx₁, one, more) =
        >>=-eq-ok (sign_input lib ms tools desc witness_script older keys vin u tx) _ h in
      let (w, some_witness, step) = step_lem vin u tx tx₁ one in
      let i : TxIn = record (unsigned_input sequence u) { witness = w } in
      let next : tx₁.input ≡ (signed ++ i ∷ []) ++ map (unsigned_input sequence) rest =
        ap (λ (t : Transaction). t.input) step
        ∙ ap (set_witness vin w) e
        ∙ ap
            (λ n.
              set_witness n w
                (signed ++ unsigned_input sequence u ∷ map (unsigned_input sequence) rest))
            (sym at_vin)
        ∙ set_witness-append w signed (map (unsigned_input sequence) rest)
            (unsigned_input sequence u)
        ∙ sym (append_assoc signed (i ∷ []) (map (unsigned_input sequence) rest)) in
      let (version, lock_time, output, inputs) =
        sign_inputs_lem sequence (suc vin) (before ++ u ∷ []) rest (signed ++ i ∷ []) tx₁ tx'
          (omega (arith, at_vin, length-append signed (i ∷ [])))
          (AreSigned-append sequence before (u ∷ []) signed (i ∷ []) k
            ((refl, refl, some_witness), tt))
          next more in
      (
        version ∙ ap (λ (t : Transaction). t.version) step,
        lock_time ∙ ap (λ (t : Transaction). t.lock_time) step,
        output ∙ ap (λ (t : Transaction). t.output) step,
        rw (append_assoc before (u ∷ []) rest) at inputs,
      )
