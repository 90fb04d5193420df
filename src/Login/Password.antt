-- ===== src/Login/Password.antt =====
-- `Register`, `Verify` and `Login`, api/http/controller/preauth/index.go: an account with an email
-- address and a password, and the code that is mailed to the address.
use tradeverse_api.Prelude.{
  ℕ, ◌+◌, ◌*◌, String, len, Bool, true, false, not, ◌&&◌, ◌||◌, List, [], ◌∷◌, ◌++◌, ltb, ◌==◌,
  str_eq, if◌then◌else◌, Option, none, some, Exit, next, exit, ◌>>=◌, ◌>>◌, return_if, answer,
}
use tradeverse_api.Codes
use tradeverse_api.Web.{Clock, second, unix}
use tradeverse_api.Orm.{Query, Created, loaded}
use tradeverse_api.Model.User.{UserMain, UserRef, no_user, no_ref}
use tradeverse_api.Email.{VerificationProcess, no_process, matches}
use tradeverse_api.Tokens.{encrypt, expire_ts}
use tradeverse_api.Tokens.Texts.{user_token, verify_token}
use tradeverse_api.Login.{
  LoginDb, LoginEnv, Write, Body, Outcome, Bound, refuse, refuse_after, respond, bound_request,
  encrypted, get_user_ref, send_verify_code,
}

-- `RegisterRequest`, of `Register` and `Login`
pub record RegisterRequest : Type 0 where
  pub email : String
  pub password : String
  pub ref : String

pub record ConfirmRegisterRequest : Type 0 where
  pub email : String
  pub code : String

-- `UserLoginTypeMain`
abbrev pub login_type_main : ℕ
login_type_main = 0

module _ (db : LoginDb) (env : LoginEnv) (clock : Clock) where
  found_user : Query UserMain → Exit Outcome UserMain
  found_user (Query.found u) = next u
  found_user Query.not_found = next no_user
  found_user Query.failed = exit (refuse clock Codes.unknown env.db_error)

  known_ref : UserRef → Exit Outcome UserRef
  known_ref ref = do
    return_if (ref.id == 0) (refuse clock Codes.processing "referral code not found")
    next ref

  -- A referral code is not needed, but one that is given must be known.
  checked_ref : String → Exit Outcome UserRef
  unfolding known_ref
  checked_ref code =
      if ltb 0 (len code) then known_ref (loaded no_ref (db.ref_of_code code)) else next no_ref

  abbrev pub new_account : RegisterRequest → UserRef → UserMain
  new_account req ref = record {
    id = 0;
    user_no = env.user_no;
    email = some req.email;
    password = env.password_hash req.password;
    add_time = clock 1;
    status = "00";
    ref_id = ref.id;
  }

  created_account : UserMain → Created → Exit Outcome (UserMain × List Write)
  created_account user (Created.created i) =
      next (record user { id = i }, Write.save_user (record user { id = i }) ∷ [])
  created_account user Created.duplicate = exit (refuse clock Codes.unknown env.db_error)
  created_account user Created.refused = exit (refuse clock Codes.unknown env.db_error)

  -- An account that is not verified yet gets the new password.
  new_password : RegisterRequest → UserMain → List Write
  new_password req user =
      let hash = env.password_hash req.password in
      if not (str_eq hash user.password) then Write.update_password user.id hash ∷ [] else []

  account_or_new : RegisterRequest → UserRef → UserMain → Exit Outcome (UserMain × List Write)
  unfolding created_account new_password
  account_or_new req ref user = elim (user.id == 0) [
    | true ↦ created_account (new_account req ref) (db.save_user (new_account req ref))
    | false ↦ next (user, new_password req user)
  ]

  -- The response has no message.
  mailed : UserMain → List Write → Option VerificationProcess → Outcome
  mailed user ws none = refuse_after ws clock Codes.unknown "send email failed"
  mailed user ws (some p) =
      respond clock "" (Body.registered user.user_no) (ws ++ (Write.save_process p ∷ []))

  -- `Generate` is called although `New` has failed, and panics on the generator that is `nil`: this
  -- handler writes no response and stores nothing.
  abbrev panicked : Outcome
  panicked = record { reply = none; writes = [] }

  -- `held`: `registerInLock` has the address.
  unfoldable pub register : Bool → Bound RegisterRequest → Outcome
  unfolding bound_request found_user checked_ref account_or_new get_user_ref send_verify_code mailed
  register held body = answer do
    req ← bound_request clock body
    return_if (not (matches req.email)) (refuse clock Codes.req_format "Invalid email format")
    return_if held (refuse clock Codes.processing "operating, please do not repeat the operation")
    user ← found_user (db.user_of_email req.email)
    return_if (ltb 0 user.id && not (str_eq user.status "00"))
        (refuse clock Codes.exist_obj "email repeated")
    return_if (not env.has_generator) panicked
    ref ← checked_ref req.ref
    (stored, ws) ← account_or_new req ref user
    let ws' = ws ++ get_user_ref db env.draws (clock 2) 0 stored.id
    next (mailed stored ws' (send_verify_code env (clock 3) req.email "10"))

  -- The errors of `Save` and of `Encrypt` are not looked at.
  verified_user : UserMain → VerificationProcess → Outcome
  verified_user user p =
      respond clock "success"
        (Body.verified user.user_no (encrypt env.cipher (verify_token user.id (unix (clock 2)))))
        (Write.save_user (record user { status = "20" })
          ∷ Write.save_process (record p { status = "100" })
          ∷ [])

  unfoldable pub verify : Bound ConfirmRegisterRequest → Outcome
  unfolding bound_request verified_user
  verify body = answer do
    req ← bound_request clock body
    let user = loaded no_user (db.user_of_email req.email)
    return_if (user.id == 0) (refuse clock Codes.unknown "email not found")
    let p = loaded no_process (db.process req.email req.code "10" "10")
    return_if (p.id == 0) (refuse clock Codes.obj_not_found "verification code not sent")
    return_if (ltb (p.add_time + p.validate_period * second) (clock 1))
        (refuse clock Codes.req_expired "verification code expired")
    next (verified_user user p)

  -- The status of the account is not looked at.
  unfoldable pub login : Bound RegisterRequest → Outcome
  unfolding bound_request encrypted
  login body = answer do
    req ← bound_request clock body
    let user = loaded no_user (db.user_of_email req.email)
    return_if (user.id == 0 || not (str_eq (env.password_hash req.password) user.password))
        (refuse clock Codes.unknown "email not found or password incorrect")
    token ← encrypted env clock [] (user_token user.id 0 login_type_main (expire_ts (clock 1)))
    next (respond clock "success" (Body.session user.user_no user.email token) [])
