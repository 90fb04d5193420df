-- ===== src/Model/Flow.antt =====
-- The money tables, model/flow.go: a user's balance, the platform's flows, the on-chain flows.
use tradeverse_api.Prelude.{ℕ, String, Option, none, some, str_eq, if◌then◌else◌}
use tradeverse_api.Web.{Time}
use tradeverse_api.Model.FlowKind

-- `AvailFlowType`; `none` is -1
abbrev pub avail_flow_type : String → Option ℕ
avail_flow_type s =
    if str_eq s "recharge"
    then some FlowKind.recharge
    else if str_eq s "freeze"
    then some FlowKind.freeze
    else if str_eq s "unfreeze"
    then some FlowKind.unfreeze
    else if str_eq s "spend"
    then some 3
    else if str_eq s "withdraw"
    then some FlowKind.spend
    else if str_eq s "refund"
    then some FlowKind.refund
    else none

pub record AccountFlow : Type 0 where
  pub id : ℕ
  pub main_id : ℕ
  pub asset_id : ℕ
  pub biz_type : ℕ
  pub amount : ℕ
  pub direction : ℕ
  pub client_id : String
  pub game_id : ℕ
  pub external_id : String
  pub external_remark : String
  pub ref_flow_id : ℕ
  pub status : ℕ
  pub add_time : Time
  pub update_time : Time
  pub session_id : String

pub record AccountBalance : Type 0 where
  pub id : ℕ
  pub main_id : ℕ
  pub asset_id : ℕ
  pub available : ℕ
  pub frozen : ℕ
  pub update_time : Time
  pub withdrawal : ℕ

pub record AccountBalanceFlow : Type 0 where
  pub id : ℕ
  pub main_id : ℕ
  pub asset_id : ℕ
  pub op : ℕ
  pub status : ℕ
  pub amount : ℕ
  pub real_amount : ℕ
  pub available_delta : ℕ
  pub frozen_delta : ℕ
  pub chain_id : String
  pub tx_hash : String
  pub block_height : ℕ
  pub log_index : ℕ
  pub block_timestamp : Time
  pub add_time : Time
  pub update_time : Time
  pub ref_flow_id : ℕ
  pub from_addr : String
  pub to_addr : String
  pub lock_expiry : Option Time
  pub lock_nonce : String
  pub lock_id : String
  pub lock_sig : String
  pub lock_addr : String

-- The zero values of the structs.
abbrev pub no_flow : AccountFlow
no_flow = record {
  id = 0;
  main_id = 0;
  asset_id = 0;
  biz_type = 0;
  amount = 0;
  direction = 0;
  client_id = "";
  game_id = 0;
  external_id = "";
  external_remark = "";
  ref_flow_id = 0;
  status = 0;
  add_time = 0;
  update_time = 0;
  session_id = "";
}

abbrev pub no_balance : AccountBalance
no_balance = record {
  id = 0;
  main_id = 0;
  asset_id = 0;
  available = 0;
  frozen = 0;
  update_time = 0;
  withdrawal = 0;
}

abbrev pub no_balance_flow : AccountBalanceFlow
no_balance_flow = record {
  id = 0;
  main_id = 0;
  asset_id = 0;
  op = 0;
  status = 0;
  amount = 0;
  real_amount = 0;
  available_delta = 0;
  frozen_delta = 0;
  chain_id = "";
  tx_hash = "";
  block_height = 0;
  log_index = 0;
  block_timestamp = 0;
  add_time = 0;
  update_time = 0;
  ref_flow_id = 0;
  from_addr = "";
  to_addr = "";
  lock_expiry = none;
  lock_nonce = "";
  lock_id = "";
  lock_sig = "";
  lock_addr = "";
}
