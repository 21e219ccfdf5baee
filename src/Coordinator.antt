-- ===== src/Coordinator.antt =====
-- The coordinator crate (src/*.rs): its errors, configuration, keys, the vault descriptor, the wallet's
-- coins and state file, spends, the calls of the node, and the program src/bin/tesaurus.rs.
pub mod Failure
pub mod Action
pub mod Tools
pub mod Files
pub mod Config
pub mod Keys
pub mod Descriptor
pub mod Wallet
pub mod Spend
pub mod Rpc
pub mod Cli
