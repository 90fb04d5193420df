-- ===== src/Model/User.antt =====
-- The user tables, model/user.go.
use tradeverse_api.Prelude.{ℕ, String, Option, none}
use tradeverse_api.Web.{Time}

pub record UserMain : Type 0 where
  pub id : ℕ
  pub user_no : String
  pub email : Option String
  pub password : String
  pub add_time : Time
  pub status : String
  pub ref_id : ℕ

pub record UserProvider : Type 0 where
  pub id : ℕ
  pub main_id : ℕ
  pub provider_type : String
  pub provider_id : String
  pub add_time : Time
  pub provider_label : String

pub record UserRef : Type 0 where
  pub id : ℕ
  pub main_id : ℕ
  pub ref_code : String
  pub add_time : Time

-- The zero values of the structs.
abbrev pub no_user : UserMain
no_user = record {
  id = 0;
  user_no = "";
  email = none;
  password = "";
  add_time = 0;
  status = "";
  ref_id = 0;
}

abbrev pub no_provider : UserProvider
no_provider = record {
  id = 0;
  main_id = 0;
  provider_type = "";
  provider_id = "";
  add_time = 0;
  provider_label = "";
}

abbrev pub no_ref : UserRef
no_ref = record { id = 0; main_id = 0; ref_code = ""; add_time = 0 }
