-- ===== src/Confirm/Tests.antt =====
-- Runs of `confirm_game_session`.
use tradeverse_api.Prelude.{
  ℕ, ◌≡◌, String, Bool, true, some, [], ◌∷◌, arith, refl, ◌==◌, if◌then◌else◌,
}
use tradeverse_api.Web.{Clock}
use tradeverse_api.Orm.{Query}
use tradeverse_api.Model.SessionStatus
use tradeverse_api.Model.Game.{GameSession}
use tradeverse_api.Confirm.{ConfirmDb, ConfirmGameSessionReq, confirm_game_session}
use tradeverse_api.Confirm.Laws.{Saves}

abbrev clock : Clock
clock n = n

abbrev equal : ℕ → ℕ → Bool
equal a b = a == b

abbrev sprintf_d : ℕ → String
sprintf_d n = if n == 7 then "7" else ""

abbrev session : GameSession ℕ
session = record {
  session_id = "s1";
  game_id = 3;
  main_id = 7;
  start_time = 0;
  end_time = 9;
  status = SessionStatus.ended;
  score = 42;
  user_report_score = 0;
  spend_amount_n = 10;
  testing = 0;
}

abbrev db : ConfirmDb ℕ
db = record { game_session = λ i. Query.found session; save_session = λ s. true }

abbrev req : ConfirmGameSessionReq ℕ
req = record { session_id = "s1"; score = 41 }

-- The reported score is another one, so the session goes to an audit.
abbrev audited : GameSession ℕ
audited = record session { user_report_score = 41; status = SessionStatus.auditing }

confirm_runs :
    (confirm_game_session equal sprintf_d db clock (some "7") (some req)).writes ≡ audited ∷ []
unfolding confirm_game_session
confirm_runs = ground arith

audited-Saves :
    Saves audited (confirm_game_session equal sprintf_d db clock (some "7") (some req)).writes
audited-Saves = rw confirm_runs refl

abbrev later_db : ConfirmDb ℕ
later_db = record db { game_session = λ i. Query.found audited }
