-- ===== src/Policy/Evaluate/Inputs/Coins.antt =====
-- What the stages on inputs of tesaurus-policy/src/evaluate.rs establish for each coin that is spent.
use tesaurus.Prelude.{
  ℕ, ◌<◌, ◌≡◌, refl, true, List, [], ◌∷◌, some, none, arith, ok, for_each-All, length-try_map,
  length, length-zip, zip, sum_of, All, u64_size, ◌∙◌, sym,
}
use tesaurus.Bitcoin.{Crates, TxIn, TxOut, Psbt}
use tesaurus.Policy.Csv.Maturity.{IsDeep, IsOld, check_csv_maturity_iff}
use tesaurus.Policy.Facts.{ChainView, PrevoutFact}
use tesaurus.Policy.Pin.{AgentPin}
use tesaurus.Policy.Evaluate.Inputs.{
  collect_prevouts, chain_matches, check_chain_prevouts, find_fact, input_is_mature,
  check_csv_for_inputs,
}

-- The chain shows the coin unspent, paying the vault, deep and old enough for the pin.
pub record IsMatureCoin (pin : AgentPin) (chain : ChainView) (txin : TxIn) : Type 0 where
  pub fact : PrevoutFact
  pub found : find_fact chain txin.previous_output ≡ some fact
  pub unspent : fact.visible_unspent ≡ true
  pub vault : fact.script_pubkey ≡ pin.script_pubkey
  pub deep : IsDeep chain.tip_height fact.confirm_height pin.csv_blocks pin.safety_margin
  pub old : IsOld chain.now_unix fact.header_time_unix pin.csv_blocks pin.safety_margin

-- The value that the chain shows for the coin of an input.
abbrev pub chain_value : ChainView → TxIn → ℕ
chain_value chain txin = elim (find_fact chain txin.previous_output) [
  | some fact ↦ fact.value
  | none ↦ 0
]

abbrev IsShown : AgentPin → ChainView → TxIn → Type 0
IsShown pin chain txin =
    (fact : PrevoutFact) × (find_fact chain txin.previous_output ≡ some fact)
    × (fact.visible_unspent ≡ true)
    × (fact.script_pubkey ≡ pin.script_pubkey)

module _ (pin : AgentPin) (chain : ChainView) where
  chain_matches-IsShown :
      (txin : TxIn) (prevout : TxOut)
      → chain_matches pin chain (txin, prevout) ≡ ok tt
      → IsShown pin chain txin × (chain_value chain txin ≡ prevout.value)
  unfolding chain_matches
  chain_matches-IsShown txin prevout h = (ground arith, ground arith)

  mature_coin :
      (txin : TxIn)
      → chain.now_unix < u64_size
      → IsShown pin chain txin
      → input_is_mature pin chain txin ≡ ok tt
      → IsMatureCoin pin chain txin
  unfolding input_is_mature
  mature_coin txin fits (fact, found, unspent, vault) h =
      let (deep, old) =
        (check_csv_maturity_iff chain.tip_height fact.confirm_height chain.now_unix
            fact.header_time_unix pin.csv_blocks pin.safety_margin fits).0
          (ground arith) in
      record {
        fact = fact;
        found = found;
        unspent = unspent;
        vault = vault;
        deep = deep;
        old = old;
      }

  inputs_lem :
      (txins : List TxIn) (prevouts : List TxOut)
      → length txins ≡ length prevouts
      → All (λ p. chain_matches pin chain p ≡ ok tt) (zip txins prevouts)
      → All (IsShown pin chain) txins
        × (sum_of (chain_value chain) txins ≡ sum_of (λ (o : TxOut). o.value) prevouts)
  inputs_lem [] [] e h = (tt, refl)
  inputs_lem [] (o ∷ prevouts) e h = absurd (omega arith)
  inputs_lem (t ∷ txins) [] e h = absurd (omega arith)
  inputs_lem (t ∷ txins) (o ∷ prevouts) e h =
      let (shown, value) = chain_matches-IsShown t o h.0 in
      let (rest, sum) = inputs_lem txins prevouts (omega arith) h.1 in ((shown, rest), omega arith)

  mature_inputs :
      (txins : List TxIn)
      → chain.now_unix < u64_size
      → All (IsShown pin chain) txins
      → All (λ t. input_is_mature pin chain t ≡ ok tt) txins
      → All (IsMatureCoin pin chain) txins
  mature_inputs [] fits h k = tt
  mature_inputs (t ∷ txins) fits h k =
      (mature_coin t fits h.0 k.0, mature_inputs txins fits h.1 k.1)

module _ (lib : Crates) (pin : AgentPin) (chain : ChainView) (psbt : Psbt) where
  abbrev Counted : Type 0
  Counted = length psbt.inputs ≡ length psbt.unsigned_tx.input

  length-collect_prevouts :
      (prevouts : List TxOut)
      → Counted
      → collect_prevouts lib psbt ≡ ok prevouts
      → length psbt.unsigned_tx.input ≡ length prevouts
  unfolding collect_prevouts
  length-collect_prevouts prevouts e h = sym (
      length-try_map _ (zip psbt.inputs psbt.unsigned_tx.input) prevouts h
      ∙ length-zip psbt.inputs psbt.unsigned_tx.input e)

  -- Where a PSBT has as many inputs as its transaction and the stages on inputs pass, at a clock that
  -- fits `u64`, every input spends a mature coin of the vault, and the input amounts that were summed
  -- are those that the chain shows.
  pub mature_coins :
      (prevouts : List TxOut)
      → Counted
      → chain.now_unix < u64_size
      → collect_prevouts lib psbt ≡ ok prevouts
      → check_chain_prevouts pin chain psbt prevouts ≡ ok tt
      → check_csv_for_inputs pin chain psbt ≡ ok tt
      → All (IsMatureCoin pin chain) psbt.unsigned_tx.input
        × (sum_of (chain_value chain) psbt.unsigned_tx.input
            ≡ sum_of (λ (o : TxOut). o.value) prevouts)
  unfolding check_chain_prevouts check_csv_for_inputs
  mature_coins prevouts e fits collected matched mature =
      let txins = psbt.unsigned_tx.input in
      let (shown, sum) =
        inputs_lem pin chain txins prevouts (length-collect_prevouts prevouts e collected)
          (for_each-All (chain_matches pin chain) (zip txins prevouts) matched) in
      (
        mature_inputs pin chain txins fits shown
            (for_each-All (input_is_mature pin chain) txins mature),
        sum,
      )
