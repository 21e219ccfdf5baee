-- ===== src/Coordinator/Failure.antt =====
-- src/error.rs: the kinds of errors. The message text, which no code reads, is left out. `bail` is not
-- of error.rs: it stands for the errors that src/bin/tesaurus.rs makes with `bail!` and `context`.
use tesaurus.Prelude.{Result}

pub data Error : Type 0 where
  config key descriptor wallet spend rpc bitcoin io json bail : Error

abbrev pub CoreResult {ℓ} : Type ℓ → Type ℓ
CoreResult A = Result Error A

-- `Result<()>`
abbrev pub CoreCheck : Type 0
CoreCheck = CoreResult (Unit {0})
