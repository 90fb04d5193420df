-- ===== src/Oapi/Calls.antt =====
-- The database calls of the game handlers in api/oauth/jwt_middleware.go, with the arguments of
-- their WHERE clauses in the order of the code, and the writes that the handlers make. A call that
-- the code makes twice is two fields, since the rows may have changed in between.
use tradeverse_api.Prelude.{ℕ, String, List, []}
use tradeverse_api.Web.{Response, Clock, failure}
use tradeverse_api.Orm.{Query, Created, Saved}
use tradeverse_api.Model.Flow.{AccountFlow, AccountBalance}
use tradeverse_api.Model.Game.{GameInfo, GameApp, GameSetting, GameSession}
use tradeverse_api.Model.User.{UserMain}

pub record GameDb (Decimal : Type 0) : Type 0 where
  -- id = ?
  pub user_main : String → Query UserMain
  -- client_id = ?
  pub game_app : String → Query GameApp
  -- LEFT JOIN n_game_app, ga.client_id = ?
  pub game_info_of_client : String → Query GameInfo
  -- id = ?
  pub game_info : ℕ → Query GameInfo
  -- main_id = ? AND game_id = ? and status = ?
  pub session_with_status : ℕ → ℕ → ℕ → Query (GameSession Decimal)
  -- session_id = ?
  pub game_session : String → Query (GameSession Decimal)
  -- game_id = ? and code = ?
  pub game_setting : ℕ → String → Query GameSetting
  -- main_id = ? AND session_id = ? AND biz_type = ? AND status = ?
  pub flow_of_session : ℕ → String → ℕ → ℕ → Query AccountFlow
  -- the same, read again in the transaction
  pub tx_flow_of_session : ℕ → String → ℕ → ℕ → Query AccountFlow
  -- id = ?
  pub account_flow : ℕ → Query AccountFlow
  -- ref_flow_id = ? AND biz_type = ? AND session_id = ?
  pub flow_of_ref : ℕ → ℕ → String → Query AccountFlow
  -- FOR UPDATE, id = ? AND session_id = ? AND biz_type = ? AND status = ?
  pub locked_flow : ℕ → String → ℕ → ℕ → Query AccountFlow
  -- FOR UPDATE, main_id = ? AND asset_id = ?
  pub locked_balance : ℕ → ℕ → Query AccountBalance
  pub create_balance : AccountBalance → Created
  pub create_flow : AccountFlow → Created
  pub create_session : GameSession Decimal → Created
  pub save_balance : AccountBalance → Saved
  pub save_flow : AccountFlow → Saved
  pub save_session : GameSession Decimal → Saved
  pub commit : Saved

-- A durable write, with the row as it is stored: a created one has its new primary key.
pub data Write (Decimal : Type 0) : Type 0 where
  create_balance : AccountBalance → Write Decimal
  save_balance : AccountBalance → Write Decimal
  create_flow : AccountFlow → Write Decimal
  save_flow : AccountFlow → Write Decimal
  create_session : GameSession Decimal → Write Decimal
  save_session : GameSession Decimal → Write Decimal

pub record Outcome (Decimal : Type 0) : Type 0 where
  pub response : Response
  pub writes : List (Write Decimal)

-- A response after which nothing was written.
abbrev pub reply : {Decimal : Type 0} → Response → Outcome Decimal
reply r = record { response = r; writes = [] }

abbrev pub refuse : {Decimal : Type 0} → Clock → ℕ → String → Outcome Decimal
refuse clock c m = reply (failure clock c m)
