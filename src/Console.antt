-- ===== src/Console.antt =====
-- The developer console, api/http/controller/developer/index.go. A developer who is logged in edits
-- his games and takes them through their tests. This module has the requests (developer/req.go),
-- the database, and the checks that the handlers start with.
use tradeverse_api.Prelude.{
  ℕ, String, Bool, true, false, not, List, [], ◌==◌, str_eq, if◌then◌else◌, Option, none, some,
  Exit, next, exit, ◌>>=◌, ◌>>◌, return_if,
}
use tradeverse_api.Prelude.Integers.{ℤ}
use tradeverse_api.Codes
use tradeverse_api.Web.{Clock, unix}
use tradeverse_api.Orm.{Query, Saved, loaded}
use tradeverse_api.Model.Game.{GameDeveloper, GameInfo, GameApp, GameSetting, no_developer, no_info}
pub mod Games
pub mod Testing
pub mod Settings
pub mod Keys
pub mod Sessions
pub mod Status
pub mod Runs
mod Tests

pub record UpdateProfileReq : Type 0 where
  pub dev_name : String
  pub country_code : String
  pub website : String

pub record UpdateGameReq : Type 0 where
  pub id : ℤ
  pub name : String
  pub info : String
  pub description : String
  pub avatar : String
  pub image : String
  pub play_url : String
  pub amount_per_play : ℕ

pub record GameKeyReq : Type 0 where
  pub client_id : String
  pub game_id : ℕ

-- `GameTestingStartReq`, of three handlers
pub record GameTestingStartReq : Type 0 where
  pub game_id : ℕ

pub record GameSettingSaveReq (Decimal : Type 0) : Type 0 where
  pub game_id : ℕ
  pub code : String
  pub catalog : String
  pub amount_per_play : Decimal

pub record GameSettingDeleteReq : Type 0 where
  pub game_id : ℕ
  pub code : String

pub record ConsoleDb : Type 0 where
  -- id = ?
  pub developer : String → Query GameDeveloper
  -- id = ?
  pub game_info : ℤ → Query GameInfo
  -- dev_id = ? and id = ?
  pub game_of : String → String → Query GameInfo
  -- `Find` of the rows with dev_id = ?
  pub games_of : String → List GameInfo
  -- game_id = ?
  pub game_app : ℕ → Query GameApp
  -- client_id = ?
  pub app_of_client : String → Query GameApp
  -- `Find` of the rows with game_id = ?
  pub settings_of : ℕ → List GameSetting
  -- game_id = ? and code = ?
  pub game_setting : ℕ → String → Query GameSetting
  pub save_game : GameInfo → Saved

-- A call that changes the database, in the order of the handler. The code looks at the error of
-- `Save` in `UpdateGame` and `SubmitOnlineAudit` only, where a call that has failed is not listed.
pub data Write : Type 0 where
  save_developer : GameDeveloper → Write
  save_game : GameInfo → Write
  save_app : GameApp → Write
  save_setting : GameSetting → Write
  delete_setting : GameSetting → Write

-- `common.Response`, with the data of the handler.
pub record Reply (Body : Type 0) : Type 0 where
  pub code : ℕ
  pub msg : String
  pub timestamp : ℕ
  pub body : Option Body

pub record Outcome (Body : Type 0) : Type 0 where
  pub reply : Reply Body
  pub writes : List Write

abbrev pub refuse : {Body : Type 0} → Clock → ℕ → String → Outcome Body
refuse clock c m = record {
  reply = record { code = c; msg = m; timestamp = unix (clock 0); body = none };
  writes = [];
}

abbrev pub succeed : {Body : Type 0} → Clock → Option Body → List Write → Outcome Body
succeed clock b ws = record {
  reply = record { code = Codes.success; msg = "success"; timestamp = unix (clock 0); body = b };
  writes = ws;
}

module _ {Body : Type 0} (db : ConsoleDb) (clock : Clock) where
  unfoldable pub bound_request : {Req : Type 0} → Option Req → Exit (Outcome Body) Req
  bound_request none = exit (refuse clock Codes.bad_params "param error")
  bound_request (some req) = next req

  unfoldable pub logged_in : Option String → Exit (Outcome Body) String
  logged_in none = exit (refuse clock Codes.security "please login")
  logged_in (some dev_id) = next dev_id

  unfoldable pub known_developer : String → Exit (Outcome Body) GameDeveloper
  known_developer dev_id = do
    let developer = loaded no_developer (db.developer dev_id)
    return_if (developer.id == 0) (refuse clock Codes.obj_not_found "game developer not found")
    next developer

  unfoldable pub known_game : ℤ → Exit (Outcome Body) GameInfo
  known_game id = do
    let game = loaded no_info (db.game_info id)
    return_if (game.id == 0) (refuse clock Codes.obj_not_found "game not found")
    next game

  unfoldable pub own_game : GameDeveloper → ℤ → Exit (Outcome Body) GameInfo
  unfolding known_game
  own_game developer id = do
    game ← known_game id
    return_if (not (game.dev_id == developer.id))
        (refuse clock Codes.obj_not_found "game not found, please check game")
    next game

  -- The request, the login, the developer and his game.
  unfoldable pub checked_game :
      {Req : Type 0} → (Req → ℕ) → Option String → Option Req → Exit (Outcome Body) (Req × GameInfo)
  unfolding bound_request logged_in known_developer own_game
  checked_game game_id login body = do
    req ← bound_request body
    dev_id ← logged_in login
    developer ← known_developer dev_id
    game ← own_game developer (ℤ.pos (game_id req))
    next (req, game)
