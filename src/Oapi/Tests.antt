-- ===== src/Oapi/Tests.antt =====
-- Runs of the game handlers on a small database: user 7 has 90 available and 10 frozen by the
-- pending freeze 5 of the session "s1".
use tradeverse_api.Oapi.GameEnd.Runs.{CanFinish, game_end_settles}
use tradeverse_api.Oapi.GameStart.Runs.{CanStart, game_start_freezes}
use tradeverse_api.Prelude.{
  ℕ, ◌+◌, ◌≡◌, ◌≢◌, true, false, ◌&&◌, Option, none, some, [], ◌∷◌, arith, refl, ◌==◌,
  if◌then◌else◌,
}
use tradeverse_api.Prelude.Words.{add64, sub64}
use tradeverse_api.Codes
use tradeverse_api.Web.{Clock, Payload, success}
use tradeverse_api.Orm.{Query, Created}
use tradeverse_api.Model.FlowKind
use tradeverse_api.Model.FlowStatus
use tradeverse_api.Model.GameStatus
use tradeverse_api.Model.SessionStatus
use tradeverse_api.Model.Flow.{AccountFlow, AccountBalance, no_flow, no_balance}
use tradeverse_api.Model.Game.{GameSession, no_info, no_app, no_setting}
use tradeverse_api.Model.User.{UserMain, no_user}
use tradeverse_api.Oapi.Calls.{GameDb, Write}
use tradeverse_api.Oapi.SessionInit.{game_session_init}
use tradeverse_api.Oapi.SessionInit.Laws.{Opens, session_init-Opens}
use tradeverse_api.Oapi.GameStart.{GameStartReq, game_start}
use tradeverse_api.Oapi.GameStart.Laws.{game_start_atomic, game_start-IsBacked}
use tradeverse_api.Oapi.GameEnd.{GameEndReq, game_end}
use tradeverse_api.Oapi.GameEnd.Laws.{game_end_atomic, game_end-IsBacked}
use tradeverse_api.Oapi.Ledger.{Ledger, Reads, IsBacked, apply_all, find, funds_of, spent}
use tradeverse_api.Oapi.Trace.{Step, Plays, Plays-IsBacked}
mod Runs

abbrev pub clock : Clock
clock n = n

abbrev pub user : UserMain
user = record no_user { id = 7 }

abbrev pub row : AccountBalance
row = record no_balance { id = 1; main_id = 7; available = 90; frozen = 10 }

abbrev pub freeze : AccountFlow
freeze = record no_flow {
  id = 5;
  main_id = 7;
  biz_type = FlowKind.freeze;
  amount = 10;
  status = FlowStatus.pending;
  session_id = "s1";
}

abbrev ledger : Ledger
ledger = record { balance = λ u. if u == 7 then some row else none; flows = freeze ∷ [] }

abbrev pub session : GameSession ℕ
session = record {
  session_id = "s1";
  game_id = 3;
  main_id = 7;
  start_time = 0;
  end_time = 0;
  status = SessionStatus.start;
  score = 0;
  user_report_score = 0;
  spend_amount_n = 0;
  testing = 0;
}

abbrev of_row : {A : Type 0} → Option A → Query A
of_row none = Query.not_found
of_row (some a) = Query.found a

abbrev locked_row : ℕ → ℕ → Option AccountFlow → Query AccountFlow
locked_row k t none = Query.not_found
locked_row k t (some f) =
    if f.biz_type == k && f.status == t then Query.found f else Query.not_found

-- Every call succeeds; no session runs yet, and no freeze is found by its session.
abbrev pub db : GameDb ℕ
db = record {
  user_main = λ i. Query.found user;
  game_app = λ c. Query.found (record no_app { id = 2; game_id = 3 });
  game_info_of_client = λ c. Query.found (record no_info { id = 3; status = GameStatus.active });
  game_info = λ i. Query.found (record no_info { id = 3; status = GameStatus.active });
  session_with_status = λ u g s. Query.not_found;
  game_session = λ s. Query.found session;
  game_setting = λ g c. Query.found (record no_setting { id = 4; amount_per_play = 20 });
  flow_of_session = λ u s k t. Query.not_found;
  tx_flow_of_session = λ u s k t. Query.not_found;
  account_flow = λ i. of_row (find i ledger.flows);
  flow_of_ref = λ i k s. Query.not_found;
  locked_flow = λ i s k t. locked_row k t (find i ledger.flows);
  locked_balance = λ u a. of_row (ledger.balance u);
  create_balance = λ b. Created.created 8;
  create_flow = λ f. Created.created 9;
  create_session = λ s. Created.created 1;
  save_balance = λ b. true;
  save_flow = λ f. true;
  save_session = λ s. true;
  commit = true;
}

abbrev start_body : Option GameStartReq
start_body =
    some (record { session_id = "s1"; play_setting_code = "p"; external_id = ""; remark = "" })

abbrev end_body : Option (GameEndReq ℕ)
end_body = some (record { session_id = "s1"; score = 42; game_start_id = 5 })

ledger-Reads : Reads db ledger
ledger-Reads = record {
  balances = λ u. ground arith;
  flow = λ i. ground arith;
  locked = λ i k t s. ground arith;
  matching = λ i k t s. ground arith;
  fresh = λ f. refl;
}

ledger-IsBacked : IsBacked ledger
ledger-IsBacked = record { backed = λ u. ground arith; fits = λ u. ground arith }

game_start_runs :
    (apply_all (game_start db clock "c" "7" start_body).writes ledger).balance 7
    ≡ some (record row { available = 70; frozen = 30 })
unfolding game_start add64 sub64
game_start_runs = ground arith

game_end_runs :
    (apply_all (game_end db clock "c" "7" end_body).writes ledger).balance 7
    ≡ some (record row { frozen = 0 })
unfolding game_end sub64
game_end_runs = ground arith

Plays-IsBacked_example :
    let l' = apply_all (game_end db clock "c" "7" end_body).writes ledger in
    IsBacked l'
    × ((u : ℕ)
        → funds_of (l'.balance u) + spent u l'.flows
          ≡ funds_of (ledger.balance u) + spent u ledger.flows)
Plays-IsBacked_example =
    Plays-IsBacked ℕ (Plays.then Plays.here (Step.finish db clock "c" "7" end_body ledger-Reads))
      ledger-IsBacked

-- The same database with a commit that fails.
abbrev no_commit : GameDb ℕ
no_commit = record db { commit = false }

game_start_fails : (game_start no_commit clock "c" "7" start_body).response.code ≢ Codes.success
unfolding game_start
game_start_fails = ground arith

game_end_fails : (game_end no_commit clock "c" "7" end_body).response.code ≢ Codes.success
unfolding game_end
game_end_fails = ground arith

session_init-Opens_example :
    let ws = (game_session_init 0 db clock "c" "7" "s2").writes in
    Opens 7 3 0 ws
    × (ws ≢ [] → db.session_with_status 7 3 SessionStatus.start ≡ Query.not_found)
    × (ws ≢ [] → (GameStatus.active ≢ GameStatus.draft) × (GameStatus.active ≢ GameStatus.inactive))
session_init-Opens_example = session_init-Opens 0 db clock "c" "7" "s2"
