-- ===== src/Oapi/SessionInit.antt =====
-- `GameSessionInitHandler`, api/oauth/jwt_middleware.go.
use tradeverse_api.Prelude.{
  ℕ, String, Bool, true, not, ◌||◌, List, [], ◌∷◌, str_eq, ◌==◌, if◌then◌else◌, Exit, next, exit,
  ◌>>=◌, ◌>>◌, return_if, answer,
}
use tradeverse_api.Codes
use tradeverse_api.Web.{Clock, Payload, success}
use tradeverse_api.Orm.{Query, Created, loaded}
use tradeverse_api.Model.SessionStatus
use tradeverse_api.Model.GameStatus
use tradeverse_api.Model.Game.{GameInfo, GameApp, GameSession, no_info, no_app}
use tradeverse_api.Model.User.{UserMain, no_user}
use tradeverse_api.Oapi.Calls.{GameDb, Write, Outcome, reply, refuse}
pub mod Laws

-- `gameInfo.Status == GameStatusDraft || gameInfo.Status == GameStatusInactive`
abbrev pub is_offline : GameInfo → Bool
is_offline g = str_eq g.status GameStatus.draft || str_eq g.status GameStatus.inactive

-- The user, the client's game and its app, once their checks have passed.
pub record Player : Type 0 where
  pub user_main : UserMain
  pub game_info : GameInfo
  pub game_app : GameApp

module _ {Decimal : Type 0} (zero_decimal : Decimal) (db : GameDb Decimal) (clock : Clock) where
  check_player : String → String → Exit (Outcome Decimal) Player
  check_player client_id user_id = do
    let user = loaded no_user (db.user_main user_id)
    return_if (user.id == 0) (refuse clock Codes.obj_not_found "user not found")
    let app = loaded no_app (db.game_app client_id)
    let info = loaded no_info (db.game_info_of_client client_id)
    return_if (info.id == 0) (refuse clock Codes.obj_not_found "game info not found")
    return_if (is_offline info) (refuse clock Codes.bad_params "game not active or testing")
    return_if (app.id == 0) (refuse clock Codes.obj_not_found "game app not found")
    next (record { user_main = user; game_info = info; game_app = app })

  -- A session that is still running is handed out again.
  running_session : Query (GameSession Decimal) → Exit (Outcome Decimal) (Unit {0})
  running_session (Query.found s) = exit (reply (success clock (Payload.session_ref s.session_id)))
  running_session Query.failed = exit (refuse clock Codes.unknown "query game session failed")
  running_session Query.not_found = next tt

  -- `session_id` is the `uuid.New().String()` that the handler draws.
  new_session : String → Player → GameSession Decimal
  new_session session_id p = record {
    session_id = session_id;
    game_id = p.game_app.game_id;
    main_id = p.user_main.id;
    start_time = clock 1;
    end_time = 0;
    status = SessionStatus.start;
    score = zero_decimal;
    user_report_score = zero_decimal;
    spend_amount_n = 0;
    testing = if not (str_eq p.game_info.status GameStatus.active) then 1 else 0;
  }

  created_session : GameSession Decimal → Created → Outcome Decimal
  created_session s (Created.created _) = record {
    response = success clock (Payload.session_ref s.session_id);
    writes = Write.create_session s ∷ [];
  }
  created_session s Created.duplicate = refuse clock Codes.unknown "create session failed"
  created_session s Created.refused = refuse clock Codes.unknown "create session failed"

  pub game_session_init : String → String → String → Outcome Decimal
  unfolding check_player running_session new_session created_session
  game_session_init client_id user_id session_id = answer do
    p ← check_player client_id user_id
    running_session (db.session_with_status p.user_main.id p.game_app.game_id SessionStatus.start)
    let s = new_session session_id p
    next (created_session s (db.create_session s))
