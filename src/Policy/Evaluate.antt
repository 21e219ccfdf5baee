-- ===== src/Policy/Evaluate.antt =====
-- tesaurus-policy/src/evaluate.rs: the validation of a signing request, stage by stage. The children
-- hold the stages on inputs (`Inputs`) and on amounts (`Amounts`), and the theorems.
pub mod Inputs
pub mod Amounts
pub mod Machine
