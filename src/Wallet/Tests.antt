-- ===== src/Wallet/Tests.antt =====
-- The wallet's test data, user 7 with 90 available and 5 on withdrawal, and runs of
-- `update_account_balance`.
use tradeverse_api.Wallet.Nonce.{big_int_to_hex32}
use tradeverse_api.Wallet.Withdraw.Runs.{CanLock, withdraw_opens}
use tradeverse_api.Wallet.Settle.Runs.{CanCancel, settle_cancel}
use tradeverse_api.Prelude.{
  ℕ, ◌+◌, ◌%◌, ◌≡◌, ◌≢◌, String, true, false, Option, none, some, [], ◌∷◌, arith, refl, eq_iff,
  ◌==◌, if◌then◌else◌,
}
use tradeverse_api.Prelude.Words.{u64_mod, add64}
use tradeverse_api.Codes
use tradeverse_api.Web.{Clock, Response, failure}
use tradeverse_api.Orm.{Query, Created}
use tradeverse_api.Model.BalanceOp
use tradeverse_api.Model.BalanceStatus
use tradeverse_api.Model.Flow.{AccountBalance, AccountBalanceFlow, no_balance, no_balance_flow}
use tradeverse_api.Model.User.{UserMain, no_user, no_provider}
use tradeverse_api.Wallet.Calls.{Write, TopupTxInfo, SettleDb}
use tradeverse_api.Wallet.Settle.{update_account_balance, settled_target}
use tradeverse_api.Wallet.Settle.Laws.{
  saved_balance, Saves, settle_atomic, settle_funds, settle_failed_balance, settle_no_amount,
  settle_recharge, settle_once,
}
use tradeverse_api.Wallet.Withdraw.{WithdrawDb, WithdrawEnv, WithdrawReq, balance_withdraw_request}
use tradeverse_api.Wallet.Withdraw.Laws.{Locks, withdraw_atomic, withdraw-Locks, withdraw_single}
use tradeverse_api.Wallet.Report.{ReportDb, TopupReq, balance_topup_report}
use tradeverse_api.Wallet.Report.Laws.{Linked, report_atomic, report-Linked, report_keeps_money}
mod Withdraw
mod Report

abbrev pub clock : Clock
clock n = n

abbrev pub user : UserMain
user = record no_user { id = 7 }

abbrev pub row : AccountBalance
row = record no_balance { id = 1; main_id = 7; available = 90; withdrawal = 5 }

abbrev pub hash : String
hash = "0x0123456789abcdef0123456789abcdef0123456789abcdef0123456789abcdef"

abbrev recharge : AccountBalanceFlow
recharge = record no_balance_flow { id = 3; main_id = 7; tx_hash = hash; amount = 40 }

abbrev pub units : ℕ → ℕ
units n = n

abbrev settle_db : SettleDb
settle_db = record {
  flow = λ i. Query.not_found;
  locked_flow = λ u h. Query.found recharge;
  locked_balance = λ u. Query.found row;
  create_balance = λ b. Created.created 8;
  save_flow = λ f. true;
  save_balance = λ b. true;
  commit = true;
  sprintf_d = λ n. "1";
}

abbrev mined : TopupTxInfo
mined = record {
  tx_hash = hash;
  from = "0xa";
  to = "0xb";
  contract = "0xb";
  amount = some 40;
  block_number = 100;
  block_time = 50;
  status = "success";
  user_from_log = "0xa";
  main_id = 7;
  ref_flow_id = 3;
  op = BalanceOp.recharge;
  chain_id = 1;
  lock_id = [];
}

settle_runs :
    saved_balance (update_account_balance settle_db clock mined).writes
    ≡ some (record row { available = 130; update_time = 3 })
unfolding update_account_balance add64
settle_runs = ground arith

settled : AccountBalanceFlow
unfolding settled_target
settled = settled_target settle_db clock mined recharge 40

settled-Saves : Saves settled (update_account_balance settle_db clock mined).writes
unfolding update_account_balance settled
settled-Saves = ground arith

-- The rows after the recharge.
abbrev later_db : SettleDb
later_db = record settle_db { locked_flow = λ u h. Query.found settled }

settle_once_example :
    ((update_account_balance later_db clock mined).err ≢ none)
    × ((update_account_balance later_db clock mined).writes ≡ [])
settle_once_example =
    settle_once settle_db later_db clock clock mined mined settled settled-Saves refl

settle_funds_example : (130 + 5 + 0 ≡ 90 + 5 + 40) × (row.frozen ≡ row.frozen)
settle_funds_example =
    settle_funds settle_db clock mined row (record row { available = 130; update_time = 3 }) 40 refl
      refl (ground arith) settle_runs

settle_refuses : (update_account_balance later_db clock mined).err ≢ none
unfolding update_account_balance settled
settle_refuses = ground arith

abbrev reverted : TopupTxInfo
reverted = record mined { status = "failed" }

abbrev reverted_claim : TopupTxInfo
reverted_claim = record reverted { amount = none }

-- A lock over 5 that waits to be withdrawn, and its cancel.
abbrev open_lock : AccountBalanceFlow
open_lock = record no_balance_flow {
  id = 2;
  main_id = 7;
  op = BalanceOp.freeze;
  status = BalanceStatus.pending_with_draw;
  real_amount = 5;
}

abbrev cancel : AccountBalanceFlow
cancel = record no_balance_flow {
  id = 4;
  main_id = 7;
  op = BalanceOp.unfreeze;
  amount = 5;
  ref_flow_id = 2;
}

abbrev cancel_db : SettleDb
cancel_db = record settle_db {
  flow = λ i. if i == 4 then Query.found cancel else Query.found open_lock;
  locked_flow = λ u h. Query.found cancel;
}

abbrev cancelled : TopupTxInfo
cancelled = record mined { amount = some 5; ref_flow_id = 4; op = BalanceOp.unfreeze }

cancelled-CanCancel : CanCancel cancel_db cancelled cancel cancel open_lock row 5
cancelled-CanCancel = record {
  is_cancel = refl;
  succeeded = refl;
  amount_known = refl;
  named_found = refl;
  named_known = ground arith;
  lock_found = refl;
  lock_known = ground arith;
  lock_open = refl;
  target_found = refl;
  target_pending = refl;
  balance_found = refl;
  enough = ground arith;
  fits = ground arith;
  flow_saved = λ f. refl;
  balance_saved = λ c. refl;
  committed = refl;
}
