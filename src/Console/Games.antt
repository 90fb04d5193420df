-- ===== src/Console/Games.antt =====
-- `Profile`, `UpdateProfile`, `ListGame`, `DetailGame` and `UpdateGame`.
use tradeverse_api.Prelude.{
  String, Bool, not, ◌&&◌, ◌||◌, List, [], ◌∷◌, ◌==◌, str_eq, if◌then◌else◌, Option, none, some,
  Exit, next, exit, ◌>>=◌, ◌>>◌, return_if, answer,
}
use tradeverse_api.Prelude.Integers.{ℤ, is_zero}
use tradeverse_api.Codes
use tradeverse_api.Web.{Clock}
use tradeverse_api.Orm.{loaded}
use tradeverse_api.Model.GameStatus
use tradeverse_api.Model.Game.{GameDeveloper, GameInfo, GameApp, GameSetting, no_info, no_app}
use tradeverse_api.Console.{
  ConsoleDb, Outcome, Write, UpdateProfileReq, UpdateGameReq, refuse, succeed, bound_request,
  logged_in, known_developer, own_game,
}

pub record ProfileData : Type 0 where
  pub dev_name : String
  pub email : String
  pub website : String
  pub country_code : String

pub record GameDetail : Type 0 where
  pub game_info : GameInfo
  pub game_app : GameApp
  pub game_settings : List GameSetting

abbrev pub edited_profile : UpdateProfileReq → GameDeveloper → GameDeveloper
edited_profile req developer = record developer {
  dev_name = req.dev_name;
  country_code = req.country_code;
  website = req.website;
}

-- `shouldResetStatus`
unfoldable pub should_reset : UpdateGameReq → GameInfo → Bool
should_reset req game =
    not (str_eq game.name req.name)
    || not (str_eq game.info req.info)
    || not (str_eq game.description req.description)
    || not (str_eq game.avatar req.avatar)
    || not (str_eq game.image req.image)

unfoldable pub edited_game : UpdateGameReq → GameInfo → GameInfo
unfolding should_reset
edited_game req game = record game {
  name = req.name;
  info = req.info;
  description = req.description;
  avatar = req.avatar;
  image = req.image;
  play_url = req.play_url;
  status =
      if should_reset req game && str_eq game.status GameStatus.active
      then GameStatus.tested
      else game.status;
}

module _ (db : ConsoleDb) (clock : Clock) where
  unfoldable pub profile : Option String → Outcome ProfileData
  unfolding logged_in known_developer
  profile login = answer do
    dev_id ← logged_in db clock login
    developer ← known_developer db clock dev_id
    let data_of : ProfileData = record {
      dev_name = developer.dev_name;
      email = developer.email;
      website = developer.website;
      country_code = developer.country_code;
    }
    next (succeed clock (some data_of) [])

  unfoldable pub update_profile : Option String → Option UpdateProfileReq → Outcome (Unit {0})
  unfolding bound_request logged_in known_developer
  update_profile login body = answer do
    req ← bound_request db clock body
    dev_id ← logged_in db clock login
    developer ← known_developer db clock dev_id
    next (succeed clock none (Write.save_developer (edited_profile req developer) ∷ []))

  unfoldable pub list_game : Option String → Outcome (List GameInfo)
  unfolding logged_in known_developer
  list_game login = answer do
    dev_id ← logged_in db clock login
    developer ← known_developer db clock dev_id
    next (succeed clock (some (db.games_of dev_id)) [])

  required_id : Option String → Exit (Outcome GameDetail) String
  required_id none = exit (refuse clock Codes.bad_params "game_id is required")
  required_id (some game_id) = next game_id

  -- The game is one of the query parameters.
  unfoldable pub detail_game : Option String → Option String → Outcome GameDetail
  unfolding logged_in required_id known_developer
  detail_game login query = answer do
    dev_id ← logged_in db clock login
    game_id ← required_id query
    developer ← known_developer db clock dev_id
    let game = loaded no_info (db.game_of dev_id game_id)
    return_if (game.id == 0) (refuse clock Codes.obj_not_found "game not found")
    let detail : GameDetail = record {
      game_info = game;
      game_app = loaded no_app (db.game_app game.id);
      game_settings = db.settings_of game.id;
    }
    next (succeed clock (some detail) [])

  abbrev new_game : GameDeveloper → GameInfo
  new_game developer = record no_info {
    dev_id = developer.id;
    status = GameStatus.draft;
    add_time = clock 1;
  }

  -- The id 0 asks for a new game.
  game_or_new : GameDeveloper → ℤ → Exit (Outcome (Unit {0})) GameInfo
  unfolding own_game
  game_or_new developer id =
      if is_zero id then next (new_game developer) else own_game db clock developer id

  saved_game : GameInfo → Outcome (Unit {0})
  saved_game game =
      if db.save_game game
      then succeed clock none (Write.save_game game ∷ [])
      else refuse clock Codes.unknown "failed to update game"

  unfoldable pub update_game : Option String → Option UpdateGameReq → Outcome (Unit {0})
  unfolding bound_request logged_in known_developer game_or_new edited_game saved_game
  update_game login body = answer do
    req ← bound_request db clock body
    dev_id ← logged_in db clock login
    developer ← known_developer db clock dev_id
    game ← game_or_new developer req.id
    next (saved_game (edited_game req game))
