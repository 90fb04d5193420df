-- ===== src/Email.antt =====
-- `SendEmail` and `VerifyEmail`, api/http/controller/auth/user.go: a user binds an email address
-- with a code that utils/mail.go sends to it. The mail itself (Gmail) and `strings.EqualFold` are
-- arguments.
use tradeverse_api.Prelude.{
  ℕ, ◌+◌, ◌*◌, String, len, codes, Bool, true, false, not, ◌&&◌, ◌||◌, List, [], ◌∷◌, ltb, leb,
  ◌==◌, if◌then◌else◌, Option, none, some, Exit, next, exit, ◌>>=◌, ◌>>◌, return_if, answer, length,
}
use tradeverse_api.Codes
use tradeverse_api.Web.{Clock, Time, Payload, Response, success, failure, second}
use tradeverse_api.Orm.{Query, Created, Saved, loaded}
use tradeverse_api.Model.User.{UserMain, no_user}
pub mod Laws
pub mod Tests

pub record VerificationProcess : Type 0 where
  pub id : ℕ
  pub target : String
  pub type_name : String
  pub code : String
  pub add_time : Time
  pub validate_period : ℕ
  pub sort : String
  pub status : String
  pub main_id : ℕ

abbrev pub no_process : VerificationProcess
no_process = record {
  id = 0;
  target = "";
  type_name = "";
  code = "";
  add_time = 0;
  validate_period = 0;
  sort = "";
  status = "";
  main_id = 0;
}

pub record EmailDb : Type 0 where
  -- id = ?
  pub user_main : String → Query UserMain
  -- email = ?
  pub user_of_email : String → Query UserMain
  -- target = ? and code = ? and type = ? and sort = ?
  pub process : String → String → String → String → Query VerificationProcess
  pub save_process : VerificationProcess → Created
  pub save_user : UserMain → Saved

pub record MailEnv : Type 0 where
  -- os.Getenv("GMAIL_SENDER")
  pub sender : String
  -- Generate6DigitCode()
  pub new_code : String
  -- the mail with the code reaches Gmail
  pub deliver : String → String → Bool
  -- strings.EqualFold
  pub equal_fold : String → String → Bool

-- The response, and the row that was stored. An error of `Save` is not looked at.
pub record Outcome (Row : Type 0) : Type 0 where
  pub response : Response
  pub stored : Option Row

abbrev pub refuse : {Row : Type 0} → Clock → ℕ → String → Outcome Row
refuse clock c m = record { response = failure clock c m; stored = none }

abbrev between : ℕ → ℕ → ℕ → Bool
between a b c = leb a c && leb c b

is_letter : ℕ → Bool
is_letter c = between 65 90 c || between 97 122 c

-- [a-zA-Z0-9.\\-]
is_domain : ℕ → Bool
unfolding is_letter
is_domain c = is_letter c || between 48 57 c || c == 45 || c == 46

-- [a-zA-Z0-9._%+\\-]
is_local : ℕ → Bool
unfolding is_domain
is_local c = is_domain c || c == 95 || c == 37 || c == 43

all_letters : List ℕ → Bool
unfolding is_letter
all_letters [] = true
all_letters (c ∷ cs) = is_letter c && all_letters cs

is_top_level : List ℕ → Bool
unfolding all_letters
is_top_level cs = leb 2 (length cs) && all_letters cs

-- One character of a domain at least, a dot, and a top level.
is_host : ℕ → List ℕ → Bool
unfolding is_domain is_top_level
is_host n [] = false
is_host n (c ∷ cs) = (c == 46 && ltb 0 n && is_top_level cs) || (is_domain c && is_host (n + 1) cs)

-- The regular expression, from the n-th character of the local part on.
matches_from : ℕ → List ℕ → Bool
unfolding is_local is_host
matches_from n [] = false
matches_from n (c ∷ cs) =
    (c == 64 && ltb 0 n && is_host 0 cs) || (is_local c && matches_from (n + 1) cs)

unfoldable pub matches : String → Bool
unfolding matches_from
matches email = matches_from 0 (codes email)

module _ (db : EmailDb) (clock : Clock) where
  bound_request : {Row Req : Type 0} → Option Req → Exit (Outcome Row) Req
  bound_request none = exit (refuse clock Codes.bad_params "param error")
  bound_request (some req) = next req

  logged_in : {Row : Type 0} → Option String → Exit (Outcome Row) String
  logged_in none = exit (refuse clock Codes.security "please login")
  logged_in (some main_id) = next main_id

  -- The start of both handlers: the request, the login, the user and the form of the address.
  checked_email :
      {Row Req : Type 0}
      → (Req → String)
      → Option String
      → Option Req
      → Exit (Outcome Row) (UserMain × Req)
  unfolding bound_request logged_in
  checked_email email_of login body = do
    req ← bound_request body
    main_id ← logged_in login
    let user = loaded no_user (db.user_main main_id)
    return_if (user.id == 0) (refuse clock Codes.obj_not_found "user not found")
    return_if (not (matches (email_of req))) (refuse clock Codes.req_format "Invalid email format")
    next (user, req)

  mailed_process : MailEnv → String → String → ℕ → VerificationProcess
  mailed_process env email sort main_id = record {
    id = 0;
    target = email;
    type_name = "10";
    code = env.new_code;
    add_time = clock 1;
    validate_period = 600;
    sort = sort;
    status = "000";
    main_id = main_id;
  }

  stored_process : VerificationProcess → Option VerificationProcess
  stored_process p = elim (db.save_process p) [
    | Created.created i ↦ some (record p { id = i })
    | _ ↦ none
  ]

  -- `SendVerifyCodeMailAPIWithUserMainId`, utils/mail.go; the outer `none` is an error.
  send_verify_code : MailEnv → String → String → ℕ → Option (Option VerificationProcess)
  unfolding mailed_process stored_process
  send_verify_code env email sort main_id =
      if len env.sender == 0 || not (env.deliver email env.new_code)
      then none
      else some (stored_process (mailed_process env email sort main_id))

  deref : Option String → String
  deref none = ""
  deref (some s) = s

  sent : Option (Option VerificationProcess) → Outcome VerificationProcess
  sent none = refuse clock Codes.unknown "send email failed"
  sent (some p) = record { response = success clock Payload.nothing; stored = p }

  pub send_email : MailEnv → Option String → Option String → Outcome VerificationProcess
  unfolding checked_email deref send_verify_code sent
  send_email env login body = answer do
    (user, email) ← checked_email (λ email. email) login body
    return_if (env.equal_fold email (deref user.email))
        (refuse clock Codes.req_format "email already binded")
    return_if (not ((loaded no_user (db.user_of_email email)).id == 0))
        (refuse clock Codes.req_format "email already exists")
    next (sent (send_verify_code env email "10" user.id))

  -- The error of `Save` is not looked at.
  bound_email : UserMain → Outcome UserMain
  bound_email user = record {
    response = success clock Payload.nothing;
    stored = if db.save_user user then some user else none;
  }

  -- The request is the address and the code.
  pub verify_email : Option String → Option (String × String) → Outcome UserMain
  unfolding checked_email bound_email
  verify_email login body = answer do
    (user, req) ← checked_email (λ req. req.0) login body
    let p = loaded no_process (db.process req.0 req.1 "10" "10")
    return_if (p.id == 0) (refuse clock Codes.obj_not_found "verification code not sent")
    return_if (not (p.main_id == user.id))
        (refuse clock Codes.security "verification code not sent")
    return_if (ltb (p.add_time + p.validate_period * second) (clock 1))
        (refuse clock Codes.req_expired "verification code expired")
    next (bound_email (record user { email = some req.0; status = "20" }))
