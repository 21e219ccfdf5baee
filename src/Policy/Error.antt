-- ===== src/Policy/Error.antt =====
-- tesaurus-policy/src/error.rs: the reject codes and their wire names. An error is its code; the
-- message beside it, which no code reads, is left out.
use Prim.Native.String.{String}
use text.Mathlib.Text.{◌==◌ as str_eq}
use text.Mathlib.TextEquality.{eq_iff}
use tesaurus.Prelude.{◌≡◌, refl, ◌↔◌, List, [], ◌∷◌, arith, Result, ok, err, if◌then◌else◌}

pub data PolicyErrorCode : Type 0 where
  psbt_parse unknown_field sighash descriptor_mismatch key_substitution : PolicyErrorCode
  wrong_network wrong_genesis input_script foreign_input not_recovery_path : PolicyErrorCode
  prevout_missing prevout_mismatch csv_immature_depth csv_immature_wallclock : PolicyErrorCode
  sequence change fee dust locktime velocity replay replay_conflict : PolicyErrorCode
  confirm_required confirm_invalid auth internal fee_bump_invalid : PolicyErrorCode

abbrev pub PolicyResult {ℓ} : Type ℓ → Type ℓ
PolicyResult A = Result PolicyErrorCode A

-- `PolicyResult<()>`
abbrev pub PolicyCheck : Type 0
PolicyCheck = PolicyResult (Unit {0})

abbrev pub all_codes : List PolicyErrorCode
all_codes =
    psbt_parse ∷ unknown_field ∷ sighash ∷ descriptor_mismatch ∷ key_substitution ∷ wrong_network
    ∷ wrong_genesis ∷ input_script ∷ foreign_input ∷ not_recovery_path ∷ prevout_missing
    ∷ prevout_mismatch ∷ csv_immature_depth ∷ csv_immature_wallclock ∷ sequence ∷ change ∷ fee
    ∷ dust ∷ locktime ∷ velocity ∷ replay ∷ replay_conflict ∷ confirm_required ∷ confirm_invalid
    ∷ auth ∷ internal ∷ fee_bump_invalid ∷ []

pub as_str : PolicyErrorCode → String
as_str psbt_parse = "PSBT_PARSE"
as_str unknown_field = "UNKNOWN_FIELD"
as_str sighash = "SIGHASH"
as_str descriptor_mismatch = "DESCRIPTOR_MISMATCH"
as_str key_substitution = "KEY_SUBSTITUTION"
as_str wrong_network = "WRONG_NETWORK"
as_str wrong_genesis = "WRONG_GENESIS"
as_str input_script = "INPUT_SCRIPT"
as_str foreign_input = "FOREIGN_INPUT"
as_str not_recovery_path = "NOT_RECOVERY_PATH"
as_str prevout_missing = "PREVOUT_MISSING"
as_str prevout_mismatch = "PREVOUT_MISMATCH"
as_str csv_immature_depth = "CSV_IMMATURE_DEPTH"
as_str csv_immature_wallclock = "CSV_IMMATURE_WALLCLOCK"
as_str sequence = "SEQUENCE"
as_str change = "CHANGE"
as_str fee = "FEE"
as_str dust = "DUST"
as_str locktime = "LOCKTIME"
as_str velocity = "VELOCITY"
as_str replay = "REPLAY"
as_str replay_conflict = "REPLAY_CONFLICT"
as_str confirm_required = "CONFIRM_REQUIRED"
as_str confirm_invalid = "CONFIRM_INVALID"
as_str auth = "AUTH"
as_str internal = "INTERNAL"
as_str fee_bump_invalid = "FEE_BUMP_INVALID"

-- The loop of `from_str` over the codes that are left.
search_codes : List PolicyErrorCode → String → PolicyResult PolicyErrorCode
search_codes [] s = err internal
search_codes (code ∷ codes) s = if str_eq (as_str code) s then ok code else search_codes codes s

pub from_str : String → PolicyResult PolicyErrorCode
unfolding search_codes
from_str s = search_codes all_codes s

from_str-as_str : (code : PolicyErrorCode) → from_str (as_str code) ≡ ok code
unfolding from_str as_str
from_str-as_str psbt_parse = refl
from_str-as_str _ = refl

search_codes_sound :
    (codes : List PolicyErrorCode) (s : String) (code : PolicyErrorCode)
    → search_codes codes s ≡ ok code
    → as_str code ≡ s
unfolding search_codes
search_codes_sound [] s code h = ground arith
search_codes_sound (c ∷ codes) s code h =
    ground (arith, eq_iff (as_str c) s, search_codes_sound codes s code)

-- A text is read as a code exactly when it is that code's name.
pub from_str_iff :
    (s : String) (code : PolicyErrorCode) → (from_str s ≡ ok code) ↔ (as_str code ≡ s)
unfolding from_str
from_str_iff s code = (search_codes_sound all_codes s code, λ e. rw (← e) (from_str-as_str code))
