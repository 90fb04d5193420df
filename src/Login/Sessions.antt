-- ===== src/Login/Sessions.antt =====
-- From a login to the middleware that reads its token.
use tradeverse_api.Prelude.{
  ℕ, ◌+◌, ◌*◌, ◌<◌, ◌≤◌, String, len, true, false, List, [], ◌∷◌, none, some, ◌≡◌, ◌≢◌, refl, inl,
  eq_iff, arith, Option, Option-cases, inr,
}
use tradeverse_api.Prelude.Integers.{i64_half}
use tradeverse_api.Codes
use tradeverse_api.Web.{Clock, second, unix}
use tradeverse_api.Orm.{Query, Created, loaded}
use tradeverse_api.Model.Game.{no_developer}
use tradeverse_api.Model.User.{UserMain, UserProvider, no_user, no_ref}
use tradeverse_api.Email.{no_process, matches}
use tradeverse_api.Tokens.{Bytes, encrypt, expire_ts, token_seconds}
use tradeverse_api.Tokens.Numerals.{format_uint}
use tradeverse_api.Tokens.Texts.{user_token, dev_token, verify_token}
use tradeverse_api.Tokens.Interceptors.{Gate, token_interceptor, dev_token_interceptor}
use tradeverse_api.Tokens.Life.{IsLawful, user_token_life, dev_token_life, foreign_refused}
use tradeverse_api.Login.{LoginDb, LoginEnv, Write, Body, Outcome, Bound, respond}
use tradeverse_api.Login.Password.{
  RegisterRequest, ConfirmRegisterRequest, new_account, register, verify, login,
}
use tradeverse_api.Login.Developers.{DeveloperRequest, developer_login}

abbrev pub body_of : Outcome → Body
body_of o = elim o.reply [ none ↦ Body.nothing | some r ↦ r.body ]

abbrev pub stored_user : List Write → Option UserMain
stored_user [] = none
stored_user (Write.save_user user ∷ ws) = some user
stored_user (w ∷ ws) = stored_user ws

abbrev pub stored_provider : List Write → Option UserProvider
stored_provider [] = none
stored_provider (Write.save_provider w ∷ ws) = some w
stored_provider (w ∷ ws) = stored_provider ws

module _ (db : LoginDb) (env : LoginEnv) (clock : Clock) where
  -- What a session of `login` carries.
  session_carries :
      (req : RegisterRequest) (user_no : String) (email : Option String) (token : Bytes)
      → body_of (login db env clock (Bound.good req)) ≡ Body.session user_no email token
      → let user = loaded no_user (db.user_of_email req.email) in
        (user.id ≢ 0)
        × (env.password_hash req.password ≡ user.password)
        × (encrypt env.cipher (user_token user.id 0 0 (expire_ts (clock 1))) ≡ some token)
  unfolding login
  session_carries req user_no email token e =
      let user = loaded no_user (db.user_of_email req.email) in
      let text = user_token user.id 0 0 (expire_ts (clock 1)) in
      elim (Option-cases (encrypt env.cipher text)) [
        | inl failed ↦ ground (arith, eq_iff (env.password_hash req.password) user.password)
        | inr (t, done) ↦ ground (arith, eq_iff (env.password_hash req.password) user.password)
      ]

  verify_session :
      (req : ConfirmRegisterRequest) (user_no : String) (token : Bytes)
      → body_of (verify db env clock (Bound.good req)) ≡ Body.verified user_no (some token)
      → let user = loaded no_user (db.user_of_email req.email) in
        let p = loaded no_process (db.process req.email req.code "10" "10") in
        (user.id ≢ 0)
        × (p.id ≢ 0)
        × (clock 1 ≤ p.add_time + p.validate_period * second)
        × ((verify db env clock (Bound.good req)).writes
            ≡ Write.save_user (record user { status = "20" })
              ∷ Write.save_process (record p { status = "100" })
              ∷ [])
        × (encrypt env.cipher (verify_token user.id (unix (clock 2))) ≡ some token)
  unfolding verify
  verify_session req user_no token e = ground arith

  developer_session :
      (req : DeveloperRequest) (dev_id : ℕ) (email : String) (token : Bytes)
      → body_of (developer_login db env clock (Bound.good req))
        ≡ Body.dev_session dev_id email token
      → (dev_id ≢ 0)
        × (dev_id ≡ (loaded no_developer (db.developer_of_email req.email)).id)
        × (encrypt env.cipher (dev_token dev_id (expire_ts (clock 1))) ≡ some token)
  unfolding developer_login
  developer_session req dev_id email token e =
      let developer = loaded no_developer (db.developer_of_email req.email) in
      let text = dev_token developer.id (expire_ts (clock 1)) in
      elim (Option-cases (encrypt env.cipher text)) [
        | inl failed ↦ ground (arith, eq_iff req.password developer.password)
        | inr (t, done) ↦ ground (arith, eq_iff req.password developer.password)
      ]

module _ (db : LoginDb) (env : LoginEnv) (law : IsLawful env.cipher) (clock clock' : Clock) where
  -- If base64 is read back and AES-GCM opens what it has sealed, a session of `login` is that of
  -- the account with the address of the request, whose password has the digest that is stored; at
  -- any time up to twenty days after the login, with the clocks between 1970 and 2 ^ 63 seconds,
  -- the middleware takes the token of the session for this account. The status of the account is
  -- not asked.
  pub login_opens :
      (req : RegisterRequest) (user_no : String) (email : Option String) (token : Bytes)
      → body_of (login db env clock (Bound.good req)) ≡ Body.session user_no email token
      → 62135596800 * second ≤ clock 1
      → expire_ts (clock 1) + token_seconds < i64_half
      → unix (clock' 0) ≤ unix (clock 1) + 2 * token_seconds
      → let user = loaded no_user (db.user_of_email req.email) in
        (env.password_hash req.password ≡ user.password)
        × (token_interceptor env.cipher clock' true token none
            ≡ Gate.passed (record {
              main_id = format_uint user.id;
              provider_id = format_uint 0;
              provider_type = format_uint 0;
            }))
  login_opens req user_no email token e start h soon =
      let user = loaded no_user (db.user_of_email req.email) in
      let (_, same, made) = session_carries db env clock req user_no email token e in
      let life =
        user_token_life env.cipher law clock' user.id 0 0 (clock 1) token made start (omega arith)
          (omega arith) in
      ground arith

  -- If base64 is read back and AES-GCM opens what it has sealed: where `verify` answers with a
  -- token, it has found the account with the address of the request, and the code of the request
  -- for this address, which is not out of time, and has handed to `Save`, whose errors it does not
  -- look at, the account as verified, with the status "20", and the code as used, with the status
  -- "100"; and yet the middleware refuses the token at any time.
  pub verified_refused :
      (req : ConfirmRegisterRequest) (user_no : String) (token : Bytes)
      → body_of (verify db env clock (Bound.good req)) ≡ Body.verified user_no (some token)
      → let user = loaded no_user (db.user_of_email req.email) in
        let p = loaded no_process (db.process req.email req.code "10" "10") in
        (user.id ≢ 0)
        × (p.id ≢ 0)
        × (clock 1 ≤ p.add_time + p.validate_period * second)
        × ((verify db env clock (Bound.good req)).writes
            ≡ Write.save_user (record user { status = "20" })
              ∷ Write.save_process (record p { status = "100" })
              ∷ [])
        × (token_interceptor env.cipher clock' true token none
            ≡ Gate.aborted Codes.security "token length error" (unix (clock' 1)))
  verified_refused req user_no token e =
      let id = (loaded no_user (db.user_of_email req.email)).id in
      let now = unix (clock 2) in
      let (known, sent, fresh, stored, made) = verify_session db env clock req user_no token e in
      let refused =
        foreign_refused env.cipher law clock' id now (verify_token id now) token (inl refl) made in
      (known, sent, fresh, stored, refused)

  -- If base64 is read back and AES-GCM opens what it has sealed, at any time up to twenty days
  -- after a developer's login, with the clocks between 1970 and 2 ^ 63 seconds, the middleware of
  -- the console takes the token for the developer with the address of the request.
  pub developer_opens :
      (req : DeveloperRequest) (dev_id : ℕ) (email : String) (token : Bytes)
      → body_of (developer_login db env clock (Bound.good req))
        ≡ Body.dev_session dev_id email token
      → 62135596800 * second ≤ clock 1
      → expire_ts (clock 1) + token_seconds < i64_half
      → unix (clock' 0) ≤ unix (clock 1) + 2 * token_seconds
      → (dev_id ≡ (loaded no_developer (db.developer_of_email req.email)).id)
        × (dev_token_interceptor env.cipher clock' true token ≡ Gate.passed (format_uint dev_id))
  developer_opens req dev_id email token e start h soon =
      let (_, same, made) = developer_session db env clock req dev_id email token e in
      let life =
        dev_token_life env.cipher law clock' dev_id (clock 1) token made start (omega arith)
          (omega arith) in
      ground arith

-- If the address is well formed and not known, no referral code is given, the generator of user
-- numbers can be made, and the row can be stored: `register` stores an account with the status "00", which waits for the verification of
-- its address; and once the database finds this account and the token can be encrypted, `login`
-- with the same password answers with a session.
pub unverified_logs_in :
    (db db' : LoginDb) (env : LoginEnv) (clock clock' : Clock) (req : RegisterRequest) (i : ℕ)
    (token : Bytes)
    → matches req.email ≡ true
    → db.user_of_email req.email ≡ Query.not_found
    → len req.ref ≡ 0
    → (let user = new_account db env clock req no_ref in
        (db.save_user user ≡ Created.created i)
        × (db'.user_of_email req.email ≡ Query.found (record user { id = i })))
    → i ≢ 0
    → env.has_generator ≡ true
    → encrypt env.cipher (user_token i 0 0 (expire_ts (clock' 1))) ≡ some token
    → let user = record (new_account db env clock req no_ref) { id = i } in
      (stored_user (register db env clock false (Bound.good req)).writes ≡ some user)
      × (user.status ≡ "00")
      × (login db' env clock' (Bound.good req)
          ≡ respond clock' "success" (Body.session env.user_no (some req.email) token) [])
unfolding register login
unverified_logs_in db db' env clock clock' req i token m absent plain (created, kept) known gen
      made =
    ground (arith, eq_iff (env.password_hash req.password) (env.password_hash req.password))
