-- ===== src/Policy.antt =====
-- The crate tesaurus-policy: pure validation of a co-signing request, and the replay store.
pub mod Constants
pub mod Error
pub mod Csv
pub mod Velocity
pub mod Confirm
pub mod Structure
pub mod Facts
pub mod Pin
pub mod Replay
pub mod Evaluate
