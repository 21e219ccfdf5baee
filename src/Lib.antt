-- ===== src/Lib.antt =====
-- Verification of Tesaurus, a 2-of-3 Bitcoin vault with a delayed recovery path.
--
-- The crate tesaurus-policy decides whether the agent may add its signature to a spend: `evaluate`
-- takes the pinned identity of the vault, a request with a PSBT, facts about the chain, the store of
-- earlier spends and samples of what was signed lately, and answers with a cached signature, a
-- validated spend, or a reject code. The caller then signs, attaches the signature to the record
-- (`attach_signed`) and commits it to the replay store (`commit`), so that a retry of the request is
-- answered with the same signature and another spend of the same coins is refused.
--
-- The coordinator crate (src/) holds the vault's descriptor, keys and state file, lists its coins, and
-- builds, signs and validates spends before they are broadcast. The program src/bin/tesaurus.rs runs one
-- command on the files and a Bitcoin Core node.
--
-- What models what (Policy/ follows tesaurus-policy/src/):
--   Prelude/*: Boolean tests, lists, checked arithmetic of u32 and u64, results with `?` as bind.
--   Bitcoin: the types of the bitcoin crate that the policy reads, and the functions of the crates it
--     calls (hashes, PSBT decoder, ECDSA, miniscript) as fields of the records `Crates` and
--     `Miniscript`, which the definitions take as arguments.
--   Policy/Constants, Error, Csv, Velocity, Confirm, Structure, Facts, Pin: the files of these names.
--   Policy/Replay: replay.rs: records, the verdict `preflight` and the fee-bump test.
--     Replay/Stored: `to_stored` and `from_stored`; the hex and JSON codecs are the record `Codec`.
--     Replay/Store: `init`, `open` (`open_store` here) and `commit` on a directory. Memory and
--     directory are passed explicitly, and how each call of the file system ends is an argument
--     (`Io`): a write may be refused, or break off with anything in the file.
--     Replay/Store/History: sequences of commits and restarts as an indexed data type.
--   Policy/Evaluate: evaluate.rs: the stages on inputs (Inputs) and amounts (Amounts), and `evaluate`
--     with all stages in the code's order (Machine).
--   Coordinator/Failure, Config, Keys, Descriptor, Wallet, Spend, Rpc: src/error.rs, config.rs, keys.rs,
--     descriptor.rs, wallet.rs, spend.rs, rpc.rs; Cli: src/bin/tesaurus.rs.
--     Coordinator/Tools: the functions of the crates that only the coordinator calls. Spend/Select,
--     Spend/Build and Spend/Validate: `select_coins`, `build_and_sign` and `validate_built_spend`. The
--     sort by value is a stable insertion sort; a map of coins or signatures is a search for the last
--     entry of a key.
--     Coordinator/Action: code that reads and writes state and may fail half-way, with its bind.
--     Coordinator/Files: std::fs on a disk, a function from paths to what stands there. How each call
--     ends is an argument (`FileIo`): a write may break off with anything in the file.
--     Wallet/State: `VaultState::load` and `save`; Config/Load and Config/Example: `Config::load` and
--     `example_toml`. The texts of JSON and TOML are read and written by parameters; Config/Toml
--     describes the TOML documents that the parser is trusted to read (`ReadsToml`), which is part of
--     what its grammar allows: no escapes, and bare keys of lower case letters and underscores.
--     Coordinator/Rpc: the node is the record `Core`: for each call the answer and the next state of the
--     node. Rpc/Broadcast: `broadcast`; what is sent to the node is recorded in the `World`.
--     Cli, Cli/Private, Cli/Commands: `spend`, `write_private_file`, and `main` with the other commands.
--   Tests: concrete runs, and one example for each result below.
--
-- Conventions. An error is its code; the message is left out. A text or a byte array is a list of
-- numbers. Amounts and heights are natural numbers; the checked operations of u32 and u64 fail where
-- the code's do, and `saturating_sub` is the subtraction that stops at 0. Loops with `?` are folds
-- over lists, so that no fuel is needed. Where the code reads two slices with one index (the inputs of
-- the PSBT and of its transaction) the model pairs them: `parse_psbt_v0` has checked that their
-- lengths agree. A hash set is a test of membership. The panic of `expect` in `check_csv_for_inputs`
-- is the code `internal`; the stage before it rules it out.
--
-- A chain of symbolic links is followed 40 times, as by Linux, so that a cycle of links ends with an
-- error; nothing else is bounded.
--
-- Not modelled: the parsing of the command line and the wording of what is printed, the erasure of keys
-- and passwords from memory, the binary tesaurus-agent, which always fails, hard links and paths through
-- a linked directory, and fsync beyond whether it fails. That a crash can also lose what a completed
-- rename wrote is outside the model of the directory.
pub mod Prelude
pub mod Bitcoin
pub mod Policy
pub mod Coordinator
mod Tests
