-- ===== src/Model/Game.antt =====
-- The game tables, model/game.go. `decimal.Decimal` (shopspring/decimal) is a type parameter.
use tradeverse_api.Prelude.{ℕ, String, str_eq, if◌then◌else◌, List, []}
use tradeverse_api.Web.{Time}
use tradeverse_api.Model.SessionStatus

-- `GameSessionStatus`
abbrev pub game_session_status : String → ℕ
game_session_status s =
    if str_eq s "start"
    then SessionStatus.start
    else if str_eq s "end"
    then SessionStatus.ended
    else if str_eq s "reversed"
    then SessionStatus.reversed
    else if str_eq s "settled"
    then SessionStatus.settled
    else if str_eq s "auditing"
    then SessionStatus.auditing
    else 0

pub record GameDeveloper : Type 0 where
  pub id : ℕ
  pub dev_name : String
  pub email : String
  pub password : String
  pub add_time : Time
  pub website : String
  pub country_code : String
  pub status : String

pub record GameInfo : Type 0 where
  pub id : ℕ
  pub dev_id : ℕ
  pub name : String
  pub info : String
  pub description : String
  pub avatar : String
  pub image : String
  pub add_time : Time
  pub play_url : String
  pub status : String

pub record GameApp : Type 0 where
  pub id : ℕ
  pub game_id : ℕ
  pub add_time : Time
  pub client_id : String
  pub client_secret : String
  pub oauth_callback : String

pub record GameSetting : Type 0 where
  pub id : ℕ
  pub game_id : ℕ
  pub code : String
  pub catalog : String
  pub amount_per_play : ℕ
  pub add_time : Time
  pub update_time : Time

pub record GameSession (Decimal : Type 0) : Type 0 where
  pub session_id : String
  pub game_id : ℕ
  pub main_id : ℕ
  pub start_time : Time
  pub end_time : Time
  pub status : ℕ
  pub score : Decimal
  pub user_report_score : Decimal
  pub spend_amount_n : ℕ
  pub testing : ℕ

pub record SeasonInfo : Type 0 where
  pub id : ℕ
  pub title : String
  pub info : String
  pub description : String
  pub code : String
  pub banner_image : String
  pub start_time : Time
  pub end_time : Time
  pub status : String
  pub timezone : ℕ
  pub base_prize_n : ℕ
  pub base_prize_u : ℕ
  pub daily_spend_cap_n : ℕ
  pub is_visible : ℕ
  pub allow_join_after_start : ℕ
  pub add_time : Time
  pub settled_at : Time
  pub include_games : List GameInfo
  pub limit_user_count : ℕ
  pub join_count : ℕ

pub record SeasonUser : Type 0 where
  pub id : ℕ
  pub season_id : ℕ
  pub main_id : ℕ
  pub join_time : Time

-- The zero values of the structs.
abbrev pub no_developer : GameDeveloper
no_developer = record {
  id = 0;
  dev_name = "";
  email = "";
  password = "";
  add_time = 0;
  website = "";
  country_code = "";
  status = "";
}

abbrev pub no_info : GameInfo
no_info = record {
  id = 0;
  dev_id = 0;
  name = "";
  info = "";
  description = "";
  avatar = "";
  image = "";
  add_time = 0;
  play_url = "";
  status = "";
}

abbrev pub no_app : GameApp
no_app = record {
  id = 0;
  game_id = 0;
  add_time = 0;
  client_id = "";
  client_secret = "";
  oauth_callback = "";
}

abbrev pub no_setting : GameSetting
no_setting = record {
  id = 0;
  game_id = 0;
  code = "";
  catalog = "";
  amount_per_play = 0;
  add_time = 0;
  update_time = 0;
}

abbrev pub no_season : SeasonInfo
no_season = record {
  id = 0;
  title = "";
  info = "";
  description = "";
  code = "";
  banner_image = "";
  start_time = 0;
  end_time = 0;
  status = "";
  timezone = 0;
  base_prize_n = 0;
  base_prize_u = 0;
  daily_spend_cap_n = 0;
  is_visible = 0;
  allow_join_after_start = 0;
  add_time = 0;
  settled_at = 0;
  include_games = [];
  limit_user_count = 0;
  join_count = 0;
}

abbrev pub no_season_user : SeasonUser
no_season_user = record { id = 0; season_id = 0; main_id = 0; join_time = 0 }
