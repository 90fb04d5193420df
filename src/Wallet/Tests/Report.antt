-- ===== src/Wallet/Tests/Report.antt =====
-- Runs of `balance_topup_report`.
use tradeverse_api.Prelude.{ℕ, ◌≡◌, ◌≢◌, true, false, Option, some, arith}
use tradeverse_api.Codes
use tradeverse_api.Orm.{Query, Created}
use tradeverse_api.Model.Flow.{AccountBalance}
use tradeverse_api.Wallet.Report.{ReportDb, TopupReq, balance_topup_report}
use tradeverse_api.Wallet.Report.Laws.{Linked, report_atomic, report-Linked, report_keeps_money}
use tradeverse_api.Wallet.Report
use tradeverse_api.Wallet.Tests.{clock, user, row, hash, units}

abbrev report_db : ReportDb
report_db = record {
  user_main = λ i. Query.found user;
  flow = λ i. Query.not_found;
  flow_of_tx = λ i u h. Query.not_found;
  locked_balance = λ u a. Query.found row;
  save_flow = λ f. true;
  insert_flow = λ f. Created.created 9;
  create_flow = λ f. Created.created 9;
  save_balance = λ b. true;
  commit = true;
  sprintf_d = λ n. "1";
}

abbrev report : Option (TopupReq ℕ)
report =
    some (record { tx_hash = hash; chain_id = 1; amount = 40; type_name = "recharge"; ref_id = 0 })

report_runs :
    Report.Laws.saved_balance (balance_topup_report units report_db clock (some "7") report).writes
    ≡ some (record row { update_time = 6 })
unfolding balance_topup_report
report_runs = ground arith

report_keeps_money_example :
    (u : ℕ) × (b : AccountBalance) × (report_db.locked_balance u 0 ≡ Query.found b)
    × (record row { update_time = 6 } ≡ record b { update_time = 6 })
report_keeps_money_example =
    report_keeps_money units report_db clock (some "7") report (record row { update_time = 6 })
      report_runs

report-Linked_example :
    Linked
      (balance_topup_report units report_db clock (some "7") report).queued
      (balance_topup_report units report_db clock (some "7") report).writes
report-Linked_example = report-Linked units report_db clock (some "7") report

abbrev refused_db : ReportDb
refused_db = record report_db { commit = false }

report_fails :
    (balance_topup_report units refused_db clock (some "7") report).response.code ≢ Codes.success
unfolding balance_topup_report
report_fails = ground arith
