-- ===== src/Email/Laws.antt =====
-- What binding an email address rests on.
use tradeverse_api.Prelude.{◌+◌, ◌*◌, ◌≤◌, String, true, Option, none, some, ◌≡◌, ◌≢◌, arith}
use tradeverse_api.Web.{Clock, Payload, success, second}
use tradeverse_api.Orm.{Query, loaded}
use tradeverse_api.Model.User.{UserMain, no_user}
use tradeverse_api.Email.{
  VerificationProcess, no_process, EmailDb, MailEnv, matches, send_email, verify_email,
}

-- The stored user is the one who is logged in, with the address, and a code that is not out of time
-- was made out to this user for this address.
abbrev pub Proven : EmailDb → Clock → String → String → String → Option UserMain → Type 0
Proven db clock main_id email code none = Unit
Proven db clock main_id email code (some u) =
    let user = loaded no_user (db.user_main main_id) in
    let p = loaded no_process (db.process email code "10" "10") in
    (u ≡ record user { email = some email; status = "20" })
    × (user.id ≢ 0)
    × (matches email ≡ true)
    × (p.id ≢ 0)
    × (p.main_id ≡ user.id)
    × (clock 1 ≤ p.add_time + p.validate_period * second)

-- Whatever the database answers, `verify_email` stores a user only with an address that a code, made
-- out to the same user and not out of time, was found for.
pub verify_email-Proven :
    (db : EmailDb) (clock : Clock) (main_id email code : String)
    → Proven db clock main_id email code
        (verify_email db clock (some main_id) (some (email, code))).stored
unfolding verify_email
verify_email-Proven db clock main_id email code = ground arith

-- What `send_email` has stored.
send_email_stored :
    (db : EmailDb) (clock : Clock) (env : MailEnv) (main_id email : String)
    (p : VerificationProcess)
    → (send_email db clock env (some main_id) (some email)).stored ≡ some p
    → let user = loaded no_user (db.user_main main_id) in
      (matches email ≡ true)
      × (user.id ≢ 0)
      × (p.main_id ≡ user.id)
      × (p.add_time ≡ clock 1)
      × (p.validate_period ≡ 600)
unfolding send_email
send_email_stored db clock env main_id email p e = ground arith

-- The code that `send_email` has stored for a user binds the address within ten minutes: if the
-- database then finds the row, has the same id for the user and can store the user,
-- `verify_email` answers with a success and stores the user with the address and the status "20".
pub mailed_code_binds :
    (db db' : EmailDb) (clock clock' : Clock) (env : MailEnv) (main_id email : String)
    (p : VerificationProcess) (user : UserMain)
    → (send_email db clock env (some main_id) (some email)).stored ≡ some p
    → p.id ≢ 0
    → db'.process email p.code "10" "10" ≡ Query.found p
    → db'.user_main main_id ≡ Query.found user
    → user.id ≡ (loaded no_user (db.user_main main_id)).id
    → ((u : UserMain) → db'.save_user u ≡ true)
    → clock' 1 ≤ clock 1 + 600 * second
    → verify_email db' clock' (some main_id) (some (email, p.code)) ≡ record {
      response = success clock' Payload.nothing;
      stored = some (record user { email = some email; status = "20" });
    }
unfolding verify_email
mailed_code_binds db db' clock clock' env main_id email p user e known found here same saves h =
    ground (
      arith,
      send_email_stored db clock env main_id email p e,
      saves (record user { email = some email; status = "20" }),
    )
