-- ===== src/Login/Developers.antt =====
-- `DeveloperLogin`, `DeveloperRegister` and `DeveloperVerify`,
-- api/http/controller/preauth/developer.go. The password of a developer is stored and compared as it
-- is.
use tradeverse_api.Prelude.{
  ◌+◌, ◌*◌, String, not, ◌||◌, [], ◌∷◌, ltb, ◌==◌, str_eq, Option, none, some, next, ◌>>=◌, ◌>>◌,
  return_if, answer,
}
use tradeverse_api.Codes
use tradeverse_api.Web.{Clock, second}
use tradeverse_api.Orm.{loaded}
use tradeverse_api.Model.Game.{GameDeveloper, no_developer}
use tradeverse_api.Email.{VerificationProcess, no_process, matches}
use tradeverse_api.Tokens.{expire_ts}
use tradeverse_api.Tokens.Texts.{dev_token}
use tradeverse_api.Login.{
  LoginDb, LoginEnv, Write, Body, Outcome, Bound, refuse, respond, bound_request, encrypted,
  send_verify_code,
}

-- `LoginRequest` and `DeveloperRegisterRequest`
pub record DeveloperRequest : Type 0 where
  pub email : String
  pub password : String

pub record DeveloperVerifyRequest : Type 0 where
  pub email : String
  pub code : String

module _ (db : LoginDb) (env : LoginEnv) (clock : Clock) where
  unfoldable pub developer_login : Bound DeveloperRequest → Outcome
  unfolding bound_request encrypted
  developer_login body = answer do
    req ← bound_request clock body
    let developer = loaded no_developer (db.developer_of_email req.email)
    return_if (developer.id == 0 || not (str_eq req.password developer.password))
        (refuse clock Codes.unknown "email not found or password incorrect")
    token ← encrypted env clock [] (dev_token developer.id (expire_ts (clock 1)))
    next (respond clock "success" (Body.dev_session developer.id developer.email token) [])

  abbrev new_developer : DeveloperRequest → GameDeveloper
  new_developer req = record no_developer {
    email = req.email;
    password = req.password;
    add_time = clock 2;
  }

  -- The code is mailed before the developer is created; the error of `Create` is not looked at.
  created_developer : DeveloperRequest → Option VerificationProcess → Outcome
  created_developer req none = refuse clock Codes.unknown "send email failed"
  created_developer req (some p) =
      respond clock "success" Body.nothing
        (Write.save_process p ∷ Write.save_developer (new_developer req) ∷ [])

  unfoldable pub developer_register : Bound DeveloperRequest → Outcome
  unfolding bound_request send_verify_code created_developer
  developer_register body = answer do
    req ← bound_request clock body
    let developer = loaded no_developer (db.developer_of_email req.email)
    return_if (ltb 0 developer.id) (refuse clock Codes.exist_obj "email already registered")
    return_if (not (matches req.email)) (refuse clock Codes.req_format "Invalid email format")
    next (created_developer req (send_verify_code env (clock 1) req.email "20"))

  unfoldable pub developer_verify : Bound DeveloperVerifyRequest → Outcome
  unfolding bound_request
  developer_verify body = answer do
    req ← bound_request clock body
    let developer = loaded no_developer (db.developer_of_email req.email)
    return_if (developer.id == 0) (refuse clock Codes.unknown "email not found")
    let p = loaded no_process (db.process req.email req.code "10" "20")
    return_if (p.id == 0) (refuse clock Codes.obj_not_found "verification code not sent")
    return_if (ltb (p.add_time + p.validate_period * second) (clock 1))
        (refuse clock Codes.req_expired "verification code expired")
    next (
        respond clock "success" (Body.dev_verified developer.id developer.email) (
          Write.save_developer (record developer { status = "20" })
          ∷ Write.save_process (record p { status = "100" })
          ∷ []))
