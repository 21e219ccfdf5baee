-- ===== src/Tests.antt =====
-- Runs of the model at concrete inputs, and each theorem at an input that meets its hypotheses.
mod Wallets
mod Toml
mod Initialized
mod World
mod Checks
mod Records
mod Histories
mod Spends
mod Codes
mod Vault
mod Disk
mod Node
mod Commands
mod Settings
