-- ===== src/Funds/Tests.antt =====
-- Runs of the advanced money handlers: user 7 has 90 available and 10 frozen, and the pending flow
-- 5 over 40 belongs to user 8.
use tradeverse_api.Prelude.{ℕ, ◌≢◌, true, some, [], arith, refl}
use tradeverse_api.Web.{Clock}
use tradeverse_api.Orm.{Query, Created}
use tradeverse_api.Model.Flow.{AccountFlow, AccountBalance, no_flow, no_balance}
use tradeverse_api.Model.User.{UserMain, no_user}
use tradeverse_api.Funds.{FundsDb, FreezeReq, freeze}
use tradeverse_api.Funds.Unchecked.{Answers}

abbrev clock : Clock
clock n = n

abbrev user : UserMain
user = record no_user { id = 7 }

abbrev row : AccountBalance
row = record no_balance { id = 1; main_id = 7; available = 90; frozen = 10 }

abbrev foreign : AccountFlow
foreign = record no_flow { id = 5; main_id = 8; amount = 40 }

abbrev db : FundsDb
db = record {
  user_main = λ i. Query.found user;
  account_balance = λ i a. Query.found row;
  account_flow = λ i. Query.found foreign;
  insert_flow = λ f. Created.created 9;
  save_flow = λ f. true;
  save_balance = λ b. true;
  commit = true;
}

abbrev freeze_req : FreezeReq
freeze_req = record { amount = 20; external_id = "e"; remark = "" }

freeze_runs : (freeze {Decimal = ℕ} db clock "c" "7" (some freeze_req)).writes ≢ []
unfolding freeze
freeze_runs = ground arith

db-Answers : Answers db "7" user row foreign
db-Answers = record {
  user_found = refl;
  balance_found = refl;
  flow_found = refl;
  user_known = ground arith;
  flow_known = ground arith;
  flow_saved = λ g. refl;
  key = 9;
  flow_inserted = λ g. refl;
  balance_saved = λ c. refl;
  committed = refl;
}
