-- ===== src/Policy/Structure/Recovery.antt =====
-- What the sequence check of tesaurus-policy/src/structure.rs accepts, on the bits of BIP 68.
use tesaurus.Prelude.{
  ℕ, ◌/◌, ◌%◌, ◌^◌, ◌≤◌, ◌≡◌, ◌↔◌, not, Option, some, none, arith, ok, ◌==◌, if◌then◌else◌,
}
use tesaurus.Bitcoin.{Crates, RelativeLockTime}
use tesaurus.Policy.Structure.{require_recovery_sequence}

-- The documented reading of a sequence number: bit 31 disables the lock, bit 22 chooses units of
-- time, and the low 16 bits are the value.
abbrev pub bip68 : ℕ → Option RelativeLockTime
bip68 sequence =
    if not (sequence / 2 ^ 31 % 2 == 0)
    then none
    else if sequence / 2 ^ 22 % 2 == 0
    then some (RelativeLockTime.blocks (sequence % 2 ^ 16))
    else some (RelativeLockTime.time (sequence % 2 ^ 16))

-- Where the crate reads sequence numbers as BIP 68 says, a sequence number passes exactly when the
-- delay is between 1 and 65535 blocks, the lock is enabled and counts blocks, and its low 16 bits
-- are at least the delay.
pub require_recovery_sequence_iff :
    (lib : Crates) (sequence csv_blocks : ℕ)
    → lib.to_relative_lock_time sequence ≡ bip68 sequence
    → (require_recovery_sequence lib sequence csv_blocks ≡ ok tt) ↔ (
        (1 ≤ csv_blocks)
        × (csv_blocks ≤ 65535)
        × (sequence / 2 ^ 31 % 2 ≡ 0)
        × (sequence / 2 ^ 22 % 2 ≡ 0)
        × (csv_blocks ≤ sequence % 2 ^ 16))
unfolding require_recovery_sequence
require_recovery_sequence_iff lib sequence csv_blocks law = (λ h. ground arith, λ h. ground arith)
