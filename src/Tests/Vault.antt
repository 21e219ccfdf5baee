-- ===== src/Tests/Vault.antt =====
-- The coordinator at work: a vault on regtest, three coins, and a spend that is built and validated.
use tesaurus.Prelude.{
  ℕ, zero, ◌≡◌, ◌≢◌, refl, ap, true, Bytes, Bytes-discrete, List, [], ◌∷◌, Option, some, none,
  arith, ok, AllPairs, try_fold,
}
use tesaurus.Bitcoin.{
  Network, Network-discrete, OutPoint, OutPoint-discrete, PublicKey-discrete, Transaction,
}
use tesaurus.Coordinator.Tools.{Tools}
use tesaurus.Coordinator.Descriptor.{VaultDescriptor, build, validate, require_network, address}
use tesaurus.Coordinator.Descriptor.Canonical.{IsCanonical, require_network-IsCanonical}
use tesaurus.Coordinator.Wallet.{VaultUtxo, Unspent}
use tesaurus.Coordinator.Spend.{SpendPath, SpendPath-discrete, SpendRequest, BuiltSpend}
use tesaurus.Coordinator.Spend.Select.{select_coins}
use tesaurus.Coordinator.Spend.Select.Coverage.{
  IsSelection, select_coins-IsSelection, select_coins_total,
}
use tesaurus.Coordinator.Spend.Build.{build_and_sign}
use tesaurus.Coordinator.Spend.Build.Signed.{HasWitness}
use tesaurus.Coordinator.Spend.Validate.Accepted.{Differ}
use tesaurus.Coordinator.Spend.Validate.{available, destination_script, validate_built_spend}
use tesaurus.Coordinator.Spend.Validate.Exact.{IsExact, validate_built_spend-IsExact}
use tesaurus.Coordinator.Spend.Validate.Agreement.{ReadsBack, build_and_sign-validates}
use tesaurus.Tests.World.{crates}
use tesaurus.Tests.Checks.{plain}
use tesaurus.Tests.Codes.{transaction, decode-encode}

abbrev pub whole : {A : Type 0} → Option (A × Bytes) → Option A
whole none = none
whole (some (a, [])) = some a
whole (some (a, _ ∷ _)) = none

abbrev pub regtest_from_str : Bytes → Option Network
regtest_from_str (zero ∷ []) = some Network.regtest
regtest_from_str _ = none

abbrev pub without_last : Bytes → Bytes
without_last [] = []
without_last (x ∷ []) = []
without_last (x ∷ y ∷ s) = x ∷ without_last (y ∷ s)

-- Every set of keys satisfies, with a witness of one item.
abbrev pub tools : Tools
tools = record {
  network_from_str = regtest_from_str;
  network_to_string = λ n. 0 ∷ [];
  public_key_from_str = λ s. some (record { compressed = true; inner = s });
  descriptor_from_str = λ s. some s;
  descriptor_address = λ d n. some (50 ∷ []);
  address_from_str = λ s. some s;
  address_to_string = λ a. a;
  is_valid_for_network = λ a n. true;
  address_script_pubkey = λ a. a;
  hex_decode = λ h. some h;
  deserialize_transaction = λ b. whole (transaction.decode b);
  serialize_hex = λ t. transaction.encode t;
  txid_to_string = λ t. t;
  vsize = λ t. 200;
  enable_rbf_no_locktime = 4294967293;
  sequence_from_height = λ h. h;
  p2wsh_signature_hash = λ t vin script value. some (vin ∷ []);
  sign_ecdsa = λ digest k. k;
  from_private_key = λ k. record { compressed = true; inner = k };
  get_satisfaction = λ desc sigs older. some ((7 ∷ []) ∷ [], []);
  private_key_new = λ secret n. secret;
  private_key_to_wif = λ k. k;
  private_key_from_wif = λ s. some s;
  trim = without_last;
}

abbrev pub vault : VaultDescriptor
vault = record {
  descriptor = [];
  csv_blocks = 10;
  network = 0 ∷ [];
  primary_pubkey = 1 ∷ [];
  override_pubkey = 2 ∷ [];
  agent_pubkey = 3 ∷ [];
  receive_address = 50 ∷ [];
}

abbrev utxo : ℕ → ℕ → VaultUtxo
utxo vout value = record {
  outpoint = record { txid = 4 ∷ []; vout = vout };
  txout = record { value = value; script_pubkey = 50 ∷ [] };
  confirmations = 20;
  spendable_primary = true;
  spendable_recovery = true;
}

abbrev utxos : List VaultUtxo
utxos = utxo 0 3_000 ∷ utxo 1 7_000 ∷ utxo 2 5_000 ∷ []

abbrev spend : SpendRequest
spend = record {
  destination = 60 ∷ [];
  amount_sats = 9_000;
  fee_sats = 500;
  path = SpendPath.primary;
}

on_regtest : require_network plain tools vault Network.regtest ≡ ok tt
unfolding require_network validate build Network-discrete Bytes-discrete
on_regtest = refl

require_network-IsCanonical_example : IsCanonical plain tools vault Network.regtest
require_network-IsCanonical_example =
    require_network-IsCanonical plain tools vault Network.regtest on_regtest

largest_first : select_coins utxos 9_500 SpendPath.primary ≡ ok (utxo 1 7_000 ∷ utxo 2 5_000 ∷ [])
unfolding select_coins
largest_first = refl

select_coins-IsSelection_example :
    IsSelection utxos 9_500 SpendPath.primary (utxo 1 7_000 ∷ utxo 2 5_000 ∷ [])
select_coins-IsSelection_example =
    select_coins-IsSelection utxos 9_500 SpendPath.primary (utxo 1 7_000 ∷ utxo 2 5_000 ∷ [])
      largest_first

select_coins_total_example :
    (selected : List VaultUtxo) × (select_coins utxos 9_500 SpendPath.primary ≡ ok selected)
select_coins_total_example =
    select_coins_total utxos 9_500 SpendPath.primary (omega arith) (omega arith) (omega arith)
      (omega arith)

tools-ReadsBack : ReadsBack tools
tools-ReadsBack tx = (transaction.encode tx, refl, ap whole (decode-encode transaction tx))

tools-HasWitness : HasWitness tools
tools-HasWitness desc sigs older satisfied h e = ground arith

coins_differ : (a b : ℕ) → a ≢ b → (utxo a 0).outpoint ≢ (utxo b 0).outpoint
coins_differ a b h e = h (ap (λ (o : OutPoint). o.vout) e)

utxos-Differ : AllPairs Differ utxos
utxos-Differ = (
  (coins_differ 0 1 (λ h. omega arith), (coins_differ 0 2 (λ h. omega arith), tt)),
  ((coins_differ 1 2 (λ h. omega arith), tt), (tt, tt)),
)

at_vault : address plain tools vault ≡ ok (50 ∷ [])
unfolding address validate build Network-discrete Bytes-discrete
at_vault = refl

-- The signed transaction of the spend.
abbrev pub tx : Transaction
tx = record {
  version = 2;
  lock_time = 0;
  input =
      record {
        previous_output = (utxo 1 0).outpoint;
        script_sig = [];
        sequence = 4294967293;
        witness = (7 ∷ []) ∷ [];
      }
      ∷ record {
        previous_output = (utxo 2 0).outpoint;
        script_sig = [];
        sequence = 4294967293;
        witness = (7 ∷ []) ∷ [];
      }
      ∷ [];
  output =
      record { value = 9_000; script_pubkey = 60 ∷ [] }
      ∷ record { value = 2_500; script_pubkey = 50 ∷ [] }
      ∷ [];
}

abbrev built : BuiltSpend
built = record {
  tx_hex = transaction.encode tx;
  txid = crates.compute_txid tx;
  path = SpendPath.primary;
  fee_sats = 500;
  amount_sats = 9_000;
  change_sats = 2_500;
}

builds :
    build_and_sign crates plain tools vault Network.regtest utxos spend ((1 ∷ []) ∷ (2 ∷ []) ∷ [])
    ≡ ok built
unfolding build_and_sign require_network validate build address destination_script select_coins
    try_fold Network-discrete Bytes-discrete
builds = refl

build_and_sign-validates_example :
    (t : Transaction) × (validate_built_spend crates plain tools built vault Network.regtest utxos
        spend
      ≡ ok t)
build_and_sign-validates_example =
    build_and_sign-validates crates plain tools vault Network.regtest utxos spend
      ((1 ∷ []) ∷ (2 ∷ []) ∷ []) (50 ∷ []) built tools-ReadsBack tools-HasWitness utxos-Differ
      at_vault (refl, (refl, (refl, tt))) builds

validates : validate_built_spend crates plain tools built vault Network.regtest utxos spend ≡ ok tx
unfolding validate_built_spend require_network validate build address destination_script try_fold
    available Network-discrete Bytes-discrete OutPoint-discrete SpendPath-discrete
validates = refl

validate_built_spend-IsExact_example :
    IsExact crates plain tools vault Network.regtest utxos spend built tx
validate_built_spend-IsExact_example =
    validate_built_spend-IsExact crates plain tools vault Network.regtest utxos built spend tx
      validates

abbrev listed : List Unspent
listed =
    record { txid = 4 ∷ []; vout = 0; amount = 3_000; confirmations = 20 }
    ∷ record { txid = 4 ∷ []; vout = 1; amount = 7_000; confirmations = 5 }
    ∷ []
