-- ===== src/Policy/Facts.antt =====
-- tesaurus-policy/src/facts.rs: the marks and chain facts that the caller vouches for.
use tesaurus.Prelude.{ℕ, Bool, Bytes, List}
use tesaurus.Bitcoin.{OutPoint}

pub record AgentAuth : Type 0 where
  pub ok_mark : Bool

unfoldable pub is_ok : AgentAuth → Bool
is_ok auth = auth.ok_mark

pub record PrevoutFact : Type 0 where
  pub outpoint : OutPoint
  pub value : ℕ
  pub script_pubkey : Bytes
  pub confirm_height : ℕ
  pub header_time_unix : ℕ
  pub visible_unspent : Bool

pub record ChainView : Type 0 where
  pub genesis_hash : Bytes
  pub tip_height : ℕ
  pub now_unix : ℕ
  pub prevouts : List PrevoutFact
