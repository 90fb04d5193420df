-- ===== src/Oapi/GameStart.antt =====
-- `GameStartHandler`, api/oauth/jwt_middleware.go, in four stages: the checks, the search for a
-- freeze that is already pending, the locked balance, and the freeze. The panic handler is left
-- out, since no call of the model panics.
use tradeverse_api.Prelude.{
  ℕ, String, len, Bool, true, false, not, ◌&&◌, ◌||◌, List, [], ◌∷◌, ◌++◌, str_eq, ltb, ◌==◌,
  if◌then◌else◌, Option, none, some, Exit, next, exit, ◌>>=◌, ◌>>◌, return_if, answer,
}
use tradeverse_api.Prelude.Words.{add64, sub64}
use tradeverse_api.Codes
use tradeverse_api.Web.{Clock, Payload, success}
use tradeverse_api.Orm.{Query, Created, loaded}
use tradeverse_api.Model.SessionStatus
use tradeverse_api.Model.GameStatus
use tradeverse_api.Model.FlowKind
use tradeverse_api.Model.FlowStatus
use tradeverse_api.Model.Direction
use tradeverse_api.Model.Flow.{AccountFlow, AccountBalance, no_balance}
use tradeverse_api.Model.Game.{GameSetting, GameSession, no_info, no_setting}
use tradeverse_api.Model.User.{UserMain, no_user}
use tradeverse_api.Oapi.Calls.{GameDb, Write, Outcome, reply, refuse}
use tradeverse_api.Oapi.SessionInit.{is_offline}
pub mod Laws
pub mod Runs

pub record GameStartReq : Type 0 where
  pub session_id : String
  pub play_setting_code : String
  pub external_id : String
  pub remark : String

-- What the checks have loaded.
pub record Play (Decimal : Type 0) : Type 0 where
  pub req : GameStartReq
  pub user_main : UserMain
  pub game_session : GameSession Decimal
  pub game_setting : GameSetting

module _ {Decimal : Type 0} (db : GameDb Decimal) (clock : Clock) where
  parsed_request : Option GameStartReq → Exit (Outcome Decimal) GameStartReq
  parsed_request none = exit (refuse clock Codes.bad_params "invalid param")
  parsed_request (some req) = do
    return_if (ltb 128 (len req.external_id)) (refuse clock Codes.bad_params "external_id too long")
    return_if (ltb 128 (len req.remark)) (refuse clock Codes.bad_params "remark too long")
    next req

  found_session : Query (GameSession Decimal) → Exit (Outcome Decimal) (GameSession Decimal)
  found_session (Query.found s) = next s
  found_session Query.not_found = exit (refuse clock Codes.obj_not_found "game session not found")
  found_session Query.failed = exit (refuse clock Codes.obj_not_found "game session not found")

  check_start : String → Option GameStartReq → Exit (Outcome Decimal) (Play Decimal)
  unfolding parsed_request found_session
  check_start user_id body = do
    req ← parsed_request body
    let user = loaded no_user (db.user_main user_id)
    return_if (user.id == 0) (refuse clock Codes.obj_not_found "user not found")
    session ← found_session (db.game_session req.session_id)
    return_if (not (session.status == SessionStatus.start))
        (refuse clock Codes.bad_params "game session not started")
    return_if (not (session.main_id == user.id))
        (refuse clock Codes.bad_params "session not owned by user")
    return_if (len req.play_setting_code == 0)
        (refuse clock Codes.bad_params "play setting code is required")
    let setting = loaded no_setting (db.game_setting session.game_id req.play_setting_code)
    return_if (setting.id == 0) (refuse clock Codes.obj_not_found "game play setting not found")
    let info = loaded no_info (db.game_info session.game_id)
    return_if (info.id == 0) (refuse clock Codes.obj_not_found "game info not found")
    return_if (is_offline info) (refuse clock Codes.bad_params "game not active or testing")
    return_if (not (str_eq info.status GameStatus.active) && ltb 0 setting.amount_per_play)
        (refuse clock Codes.bad_params "game is testing, but play setting amount per play is not 0")
    next (record { req = req; user_main = user; game_session = session; game_setting = setting })

  -- A freeze of this session that is still pending is handed out again.
  pending_freeze : Query AccountFlow → Exit (Outcome Decimal) (Unit {0})
  pending_freeze (Query.found f) =
      return_if (ltb 0 f.id) (reply (success clock (Payload.operation f.id "freeze")))
  pending_freeze Query.not_found = next tt
  pending_freeze Query.failed = exit (refuse clock Codes.unknown "query running game failed")

  abbrev new_account : ℕ → AccountBalance
  new_account main_id = record no_balance { main_id = main_id }

  -- The writes of the transaction so far, and the balance that it works on.
  opened_account :
      AccountBalance → Created → Exit (Outcome Decimal) (List (Write Decimal) × AccountBalance)
  opened_account b (Created.created id) =
      next (Write.create_balance (record b { id = id }) ∷ [], record b { id = id })
  opened_account b Created.duplicate =
      exit (refuse clock Codes.unknown "create user account failed")
  opened_account b Created.refused = exit (refuse clock Codes.unknown "create user account failed")

  -- The locked balance. A player without an account gets an empty one if the play is free.
  start_account :
      Play Decimal
      → Query AccountBalance
      → Exit (Outcome Decimal) (List (Write Decimal) × AccountBalance)
  unfolding opened_account
  start_account p (Query.found b) = next ([], b)
  start_account p Query.failed =
      exit (refuse clock Codes.unknown "query user account balance failed")
  start_account p Query.not_found = do
    return_if (ltb 0 p.game_setting.amount_per_play)
        (refuse clock Codes.obj_not_found "please top up your balance")
    let b = new_account p.user_main.id
    opened_account b (db.create_balance b)

  freeze_flow : String → Play Decimal → AccountFlow
  freeze_flow client_id p = record {
    id = 0;
    main_id = p.user_main.id;
    asset_id = 0;
    biz_type = FlowKind.freeze;
    amount = p.game_setting.amount_per_play;
    direction = Direction.nowhere;
    client_id = client_id;
    game_id = p.game_session.game_id;
    external_id = p.req.external_id;
    external_remark = p.req.remark;
    ref_flow_id = 0;
    status = FlowStatus.pending;
    add_time = clock 1;
    update_time = clock 2;
    session_id = p.game_session.session_id;
  }

  -- The insert met a unique key: a freeze found in the transaction is handed out, whether or not
  -- the commit succeeds.
  duplicate_freeze : List (Write Decimal) → Query AccountFlow → Outcome Decimal
  duplicate_freeze ws (Query.found f) = record {
    response = success clock (Payload.operation f.id "freeze");
    writes = if db.commit then ws else [];
  }
  duplicate_freeze ws Query.not_found = refuse clock Codes.unknown "freeze operation failed"
  duplicate_freeze ws Query.failed = refuse clock Codes.unknown "freeze operation failed"

  -- The balance is read once, under its lock, and saved back with the amount moved.
  frozen_account : ℕ → AccountBalance → AccountBalance
  frozen_account amount b = record b {
    available = sub64 b.available amount;
    frozen = add64 b.frozen amount;
  }

  freeze_created :
      Play Decimal → List (Write Decimal) → AccountBalance → AccountFlow → Created → Outcome Decimal
  unfolding duplicate_freeze frozen_account
  freeze_created p ws b f (Created.created id) =
      let b' = frozen_account p.game_setting.amount_per_play b in
      let f' = record f { id = id } in
      if not (db.save_balance b')
      then refuse clock Codes.unknown "freeze operation failed (balance update)"
      else if not db.commit
      then refuse clock Codes.unknown "freeze commit failed"
      else record {
        response = success clock (Payload.operation id "freeze");
        writes = ws ++ (Write.create_flow f' ∷ Write.save_balance b' ∷ []);
      }
  freeze_created p ws b f Created.duplicate = duplicate_freeze ws (
      db.tx_flow_of_session p.user_main.id p.game_session.session_id FlowKind.freeze
        FlowStatus.pending)
  freeze_created p ws b f Created.refused = refuse clock Codes.unknown "freeze operation failed"

  -- From the locked balance to the commit.
  freeze_play : String → Play Decimal → List (Write Decimal) × AccountBalance → Outcome Decimal
  unfolding freeze_flow freeze_created
  freeze_play client_id p (ws, b) =
      if ltb b.available p.game_setting.amount_per_play
      then refuse clock Codes.bad_params "insufficient balance"
      else let f = freeze_flow client_id p in freeze_created p ws b f (db.create_flow f)

  unfoldable pub game_start : String → String → Option GameStartReq → Outcome Decimal
  unfolding check_start pending_freeze start_account freeze_play
  game_start client_id user_id body = answer do
    p ← check_start user_id body
    pending_freeze (
        db.flow_of_session p.user_main.id p.game_session.session_id FlowKind.freeze
          FlowStatus.pending)
    account ← start_account p (db.locked_balance p.user_main.id 0)
    next (freeze_play client_id p account)
