-- ===== src/Oapi/GameEnd.antt =====
-- `GameEndHandler`, api/oauth/jwt_middleware.go, in three stages: the checks, the search for a
-- spend that is already there, and the transaction. The panic handler is left out.
use tradeverse_api.Prelude.{
  ℕ, String, Bool, true, false, not, List, [], ◌∷◌, str_eq, ltb, ◌==◌, if◌then◌else◌, Option, none,
  some, Exit, next, exit, ◌>>=◌, ◌>>◌, return_if, answer,
}
use tradeverse_api.Prelude.Words.{sub64}
use tradeverse_api.Codes
use tradeverse_api.Web.{Clock, Payload, success}
use tradeverse_api.Orm.{Query, Created, loaded}
use tradeverse_api.Model.SessionStatus
use tradeverse_api.Model.FlowKind
use tradeverse_api.Model.FlowStatus
use tradeverse_api.Model.Direction
use tradeverse_api.Model.Flow.{AccountFlow, AccountBalance, no_flow}
use tradeverse_api.Model.Game.{GameApp, GameSession, no_app}
use tradeverse_api.Model.User.{UserMain, no_user}
use tradeverse_api.Oapi.Calls.{GameDb, Write, Outcome, reply, refuse}
pub mod Laws
pub mod Runs

pub record GameEndReq (Decimal : Type 0) : Type 0 where
  pub session_id : String
  pub score : Decimal
  pub game_start_id : ℕ

-- What the checks have loaded.
pub record Finish (Decimal : Type 0) : Type 0 where
  pub req : GameEndReq Decimal
  pub user_main : UserMain
  pub game_session : GameSession Decimal
  pub freeze_flow : AccountFlow

module _ {Decimal : Type 0} (db : GameDb Decimal) (clock : Clock) where
  bound_request : Option (GameEndReq Decimal) → Exit (Outcome Decimal) (GameEndReq Decimal)
  bound_request none = exit (refuse clock Codes.bad_params "invalid param")
  bound_request (some req) = next req

  found_session : Query (GameSession Decimal) → Exit (Outcome Decimal) (GameSession Decimal)
  found_session (Query.found s) = next s
  found_session Query.not_found = exit (refuse clock Codes.obj_not_found "game session not found")
  found_session Query.failed = exit (refuse clock Codes.obj_not_found "game session not found")

  -- The user, the session, and that the session belongs to the user and to the client's game.
  check_session :
      String → String → GameEndReq Decimal → Exit (Outcome Decimal) (UserMain × GameSession Decimal)
  unfolding found_session
  check_session client_id user_id req = do
    let user = loaded no_user (db.user_main user_id)
    return_if (user.id == 0) (refuse clock Codes.obj_not_found "user not found")
    session ← found_session (db.game_session req.session_id)
    return_if (not (session.status == SessionStatus.start))
        (refuse clock Codes.bad_params "game session not started")
    return_if (not (session.main_id == user.id))
        (refuse clock Codes.bad_params "session not owned by user")
    let app = loaded no_app (db.game_app client_id)
    return_if (app.id == 0) (refuse clock Codes.obj_not_found "game app not found")
    return_if (not (app.game_id == session.game_id))
        (refuse clock Codes.bad_params "session not belong to this client")
    next (user, session)

  -- The freeze that the request names, read without a lock.
  check_freeze :
      GameEndReq Decimal → UserMain × GameSession Decimal → Exit (Outcome Decimal) (Finish Decimal)
  check_freeze req (user, session) = do
    let f = loaded no_flow (db.account_flow req.game_start_id)
    return_if (f.id == 0) (refuse clock Codes.obj_not_found "game flow not found")
    return_if (not (f.main_id == user.id))
        (refuse clock Codes.bad_params "game flow not owned by user")
    return_if (not (f.biz_type == FlowKind.freeze))
        (refuse clock Codes.bad_params "invalid flow type")
    return_if (not (str_eq f.session_id session.session_id))
        (refuse clock Codes.bad_params "flow not match session")
    next (record { req = req; user_main = user; game_session = session; freeze_flow = f })

  -- A spend that refers to the freeze is handed out again; an error of this query is ignored.
  spent_before : Query AccountFlow → Exit (Outcome Decimal) (Unit {0})
  spent_before (Query.found f) =
      return_if (ltb 0 f.id) (reply (success clock (Payload.operation f.id "spend")))
  spent_before Query.not_found = next tt
  spent_before Query.failed = next tt

  -- The freeze under its lock, still pending.
  pending_flow : Query AccountFlow → Exit (Outcome Decimal) AccountFlow
  pending_flow (Query.found f) = next f
  pending_flow Query.not_found = exit (refuse clock Codes.bad_params "game flow not pending")
  pending_flow Query.failed = exit (refuse clock Codes.unknown "load flow failed")

  account_of : Query AccountBalance → Exit (Outcome Decimal) AccountBalance
  account_of (Query.found b) = next b
  account_of Query.not_found = exit (refuse clock Codes.obj_not_found "user account not found")
  account_of Query.failed = exit (refuse clock Codes.obj_not_found "user account not found")

  spend_flow : String → Finish Decimal → AccountFlow → AccountFlow
  spend_flow client_id e f = record {
    id = 0;
    main_id = e.user_main.id;
    asset_id = 0;
    biz_type = FlowKind.spend;
    amount = f.amount;
    direction = Direction.outward;
    client_id = client_id;
    game_id = f.game_id;
    external_id = "";
    external_remark = "";
    ref_flow_id = f.id;
    status = FlowStatus.done;
    add_time = clock 1;
    update_time = clock 2;
    session_id = e.game_session.session_id;
  }

  -- The session as the handler saves it.
  ended_session : Finish Decimal → AccountFlow → GameSession Decimal
  ended_session e f = record e.game_session {
    status = SessionStatus.ended;
    end_time = clock 4;
    score = e.req.score;
    spend_amount_n = f.amount;
  }

  created_id : Created → Exit (Outcome Decimal) ℕ
  created_id (Created.created id) = next id
  created_id Created.duplicate = exit (refuse clock Codes.unknown "create spend failed")
  created_id Created.refused = exit (refuse clock Codes.unknown "create spend failed")

  -- The transaction: lock, spend, unfreeze, settle the freeze, end the session, commit.
  settle_freeze : String → Finish Decimal → Exit (Outcome Decimal) (Outcome Decimal)
  unfolding pending_flow account_of spend_flow ended_session created_id
  settle_freeze client_id e = do
    f ← pending_flow (
        db.locked_flow e.req.game_start_id e.game_session.session_id FlowKind.freeze
          FlowStatus.pending)
    b ← account_of (db.locked_balance e.user_main.id 0)
    return_if (ltb b.frozen f.amount) (refuse clock Codes.bad_params "frozen balance insufficient")
    let spend = spend_flow client_id e f
    id ← created_id (db.create_flow spend)
    let b' = record b { frozen = sub64 b.frozen f.amount }
    return_if (not (db.save_balance b')) (refuse clock Codes.unknown "update balance failed")
    let f' = record f { status = FlowStatus.done; update_time = clock 3 }
    return_if (not (db.save_flow f')) (refuse clock Codes.unknown "update freeze failed")
    let session = ended_session e spend
    return_if (not (db.save_session session))
        (refuse clock Codes.unknown "update game session failed")
    return_if (not db.commit) (refuse clock Codes.unknown "commit failed")
    next (record {
      response = success clock (Payload.operation id "spend");
      writes =
          Write.create_flow (record spend { id = id })
          ∷ Write.save_balance b'
          ∷ Write.save_flow f'
          ∷ Write.save_session session
          ∷ [];
    })

  unfoldable pub game_end : String → String → Option (GameEndReq Decimal) → Outcome Decimal
  unfolding bound_request check_session check_freeze spent_before settle_freeze
  game_end client_id user_id body = answer do
    req ← bound_request body
    us ← check_session client_id user_id req
    e ← check_freeze req us
    spent_before (db.flow_of_ref e.freeze_flow.id FlowKind.spend e.game_session.session_id)
    settle_freeze client_id e
