-- ===== src/Wallet/Calls.antt =====
-- What the wallet code calls: the database, `fmt` and the chain queue. A durable write is a value,
-- with the row as it is stored.
use tradeverse_api.Prelude.{ℕ, String, Option, List}
use tradeverse_api.Web.{Time}
use tradeverse_api.Orm.{Query, Created, Saved}
use tradeverse_api.Model.Flow.{AccountBalance, AccountBalanceFlow}

pub data Write : Type 0 where
  create_flow : AccountBalanceFlow → Write
  save_flow : AccountBalanceFlow → Write
  create_balance : AccountBalance → Write
  save_balance : AccountBalance → Write

-- `chain.TopupTxInfo`, a transaction that has been parsed (chain/evm_tx_parse.go). The amount is a
-- `*big.Int` that is `nil` until an argument or a log gives it; it is never negative, since it is
-- decoded from a uint256.
pub record TopupTxInfo : Type 0 where
  pub tx_hash : String
  pub from : String
  pub to : String
  pub contract : String
  pub amount : Option ℕ
  pub block_number : ℕ
  pub block_time : Time
  -- "pending", "success" or "failed"
  pub status : String
  pub user_from_log : String
  pub main_id : ℕ
  pub ref_flow_id : ℕ
  pub op : ℕ
  pub chain_id : ℕ
  pub lock_id : List ℕ

-- `chain.QueuePassObject`, what is queued for the chain.
pub record QueuePassObject : Type 0 where
  pub chain_id : ℕ
  pub tx_hash : String
  pub main_id : ℕ
  pub ref_flow_id : ℕ
  pub op : ℕ

-- The calls of `UpdateAccountBalance`.
pub record SettleDb : Type 0 where
  -- id = ?
  pub flow : ℕ → Query AccountBalanceFlow
  -- FOR UPDATE, main_id = ? and tx_hash = ?
  pub locked_flow : ℕ → String → Query AccountBalanceFlow
  -- FOR UPDATE, main_id = ?
  pub locked_balance : ℕ → Query AccountBalance
  pub create_balance : AccountBalance → Created
  pub save_flow : AccountBalanceFlow → Saved
  pub save_balance : AccountBalance → Saved
  pub commit : Saved
  -- `fmt.Sprintf("%d", n)`
  pub sprintf_d : ℕ → String
