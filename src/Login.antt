-- ===== src/Login.antt =====
-- Registration and login, api/http/controller/preauth: with a wallet (`Login.Wallet`), with an email
-- address (`Login.Password`), and of the developers (`Login.Developers`). This module has the
-- requests, the database and what the handlers share. Arguments are: the database, the mail (Gmail),
-- the digest of crypto/sha256 in hexadecimal, math/rand, and the texts of errors.
use Prim.Native.String.{◌++◌}
use tradeverse_api.Prelude.{
  ℕ, ◌+◌, String, len, Bool, not, ◌||◌, List, [], ◌∷◌, ◌==◌, if◌then◌else◌, Option, none, some,
  Exit, next, exit,
}
use tradeverse_api.Random.{Draws, generate_nonce}
use tradeverse_api.Codes
use tradeverse_api.Web.{Clock, Time, unix}
use tradeverse_api.Orm.{Query, Created, loaded}
use tradeverse_api.Model.Game.{GameDeveloper}
use tradeverse_api.Model.User.{UserMain, UserProvider, UserRef, no_ref}
use tradeverse_api.Email.{VerificationProcess}
use tradeverse_api.Tokens.{Bytes, Cipher, encrypt}
pub mod Signatures
pub mod Wallet
pub mod Password
pub mod Binding
pub mod Developers
pub mod Entered
pub mod Laws
pub mod Sessions
pub mod Tests

-- `AuthMessage`, model/chao.go
pub record AuthMessage : Type 0 where
  pub id : ℕ
  pub auth_key : String
  pub auth_msg : String
  pub nonce : String
  pub create_time : Time
  pub expire_time : Time
  pub type_code : ℕ
  pub wallet : String

abbrev pub no_message : AuthMessage
no_message = record {
  id = 0;
  auth_key = "";
  auth_msg = "";
  nonce = "";
  create_time = 0;
  expire_time = 0;
  type_code = 0;
  wallet = "";
}

pub record LoginDb : Type 0 where
  -- auth_key = ? and expire_time > ?, the newest
  pub message_of_key : String → Time → Query AuthMessage
  -- id = ?
  pub message : ℕ → Query AuthMessage
  pub save_message : AuthMessage → Created
  -- provider_id = ? and provider_type = "wallet"
  pub wallet : String → Query UserProvider
  -- ref_code = ?
  pub ref_of_code : String → Query UserRef
  -- main_id = ?
  pub ref_of_user : ℕ → Query UserRef
  -- email = ?
  pub user_of_email : String → Query UserMain
  pub save_user : UserMain → Created
  pub save_provider : UserProvider → Created
  -- target = ? and code = ? and type = ? and sort = ?
  pub process : String → String → String → String → Query VerificationProcess
  -- email = ?
  pub developer_of_email : String → Query GameDeveloper

pub record LoginEnv : Type 0 where
  pub cipher : Cipher
  pub draws : Draws
  -- `system.New(1, "Asia/Shanghai")` finds the time zone: else its generator is `nil`, on which
  -- `Generate` panics. `Generate` answers the number.
  pub has_generator : Bool
  pub user_no : String
  -- fmt.Sprintf("%x", sha256.Sum256(...))
  pub password_hash : String → String
  -- os.Getenv("GMAIL_SENDER"), `Generate6DigitCode`, and whether the mail reaches Gmail
  pub sender : String
  pub new_code : String
  pub deliver : String → String → Bool
  -- the texts of the errors
  pub db_error : String
  pub token_error : String

-- A call that changes the database, in the order of the handler, as far as the handler goes on after
-- it. What a transaction that is rolled back has stored is left out. Where the handler does not look
-- at an error, that of `Save` in `Verify` and that of `Commit` in `VerifyMessage`, the call stands
-- here whether it has failed or not.
pub data Write : Type 0 where
  save_message : AuthMessage → Write
  save_user : UserMain → Write
  save_provider : UserProvider → Write
  save_ref : UserRef → Write
  save_process : VerificationProcess → Write
  -- the column "password" of the user with the id
  update_password : ℕ → String → Write
  save_developer : GameDeveloper → Write

-- The data of the responses.
pub data Body : Type 0 where
  nothing : Body
  -- "id", "message"
  auth_text : ℕ → String → Body
  -- "user_no", "email", "provisional_token"
  session : String → Option String → Bytes → Body
  -- "user_no"
  registered : String → Body
  -- "user_no", "provisional_token", which is empty when the encryption fails
  verified : String → Option Bytes → Body
  -- "dev_id", "email", "provisional_token"
  dev_session : ℕ → String → Bytes → Body
  -- "dev_id", "email"
  dev_verified : ℕ → String → Body

pub record Reply : Type 0 where
  pub code : ℕ
  pub msg : String
  pub timestamp : ℕ
  pub body : Body

-- There is no reply where the handler returns without one.
pub record Outcome : Type 0 where
  pub reply : Option Reply
  pub writes : List Write

-- What gin makes of the request: it is bound and meets its `binding` tags, or there is an error text.
pub data Bound (Req : Type 0) : Type 0 where
  good : Req → Bound Req
  bad : String → Bound Req

abbrev pub refuse_after : List Write → Clock → ℕ → String → Outcome
refuse_after ws clock c m = record {
  reply = some (record { code = c; msg = m; timestamp = unix (clock 0); body = Body.nothing });
  writes = ws;
}

abbrev pub refuse : Clock → ℕ → String → Outcome
refuse = refuse_after []

abbrev pub respond : Clock → String → Body → List Write → Outcome
respond clock m b ws = record {
  reply = some (record { code = Codes.success; msg = m; timestamp = unix (clock 0); body = b });
  writes = ws;
}

unfoldable pub bound_request : {Req : Type 0} → Clock → Bound Req → Exit Outcome Req
bound_request clock (Bound.good req) = next req
bound_request clock (Bound.bad e) = exit (refuse clock Codes.req_format ("invalid request" ++ e))

-- `security.Encrypt`, after the writes.
unfoldable pub encrypted : LoginEnv → Clock → List Write → Bytes → Exit Outcome Bytes
unfolding encrypt
encrypted env clock ws text = elim (encrypt env.cipher text) [
  | none ↦ exit (refuse_after ws clock Codes.security ("token gen error:" ++ env.token_error))
  | some token ↦ next token
]

-- `GetUserRef`, api/service/user.go: a user without a referral code gets one. Its time and the first
-- of its draws are arguments.
unfoldable pub get_user_ref : LoginDb → Draws → Time → ℕ → ℕ → List Write
unfolding generate_nonce
get_user_ref db draws now k main_id =
    if (loaded no_ref (db.ref_of_user main_id)).id == 0
    then Write.save_ref (record {
      id = 0;
      main_id = main_id;
      ref_code = generate_nonce draws k 8 ++ generate_nonce draws (k + 8) 4;
      add_time = now;
    })
      ∷ []
    else []

-- `SendVerifyCodeMailAPI`, utils/mail.go, at the given time: the row that it stores, or an error.
unfoldable pub send_verify_code : LoginEnv → Time → String → String → Option VerificationProcess
send_verify_code env now email sort =
    if len env.sender == 0 || not (env.deliver email env.new_code)
    then none
    else some (record {
      id = 0;
      target = email;
      type_name = "10";
      code = env.new_code;
      add_time = now;
      validate_period = 600;
      sort = sort;
      status = "000";
      main_id = 0;
    })
