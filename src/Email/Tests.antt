-- ===== src/Email/Tests.antt =====
-- User 7 binds an address with the code 123456.
use tradeverse_api.Prelude.{◌*◌, true, false, some, ◌≡◌, refl, arith}
use tradeverse_api.Web.{Clock, Payload, success, second}
use tradeverse_api.Orm.{Query, Created}
use tradeverse_api.Model.User.{UserMain, no_user}
use tradeverse_api.Email.{VerificationProcess, EmailDb, MailEnv, matches, send_email, verify_email}
use tradeverse_api.Email.Laws.{Proven, verify_email-Proven, mailed_code_binds}

abbrev clock : Clock
clock n = n * second

abbrev user : UserMain
user = record no_user { id = 7 }

abbrev row : VerificationProcess
row = record {
  id = 5;
  target = "ann@mail.example";
  type_name = "10";
  code = "123456";
  add_time = clock 1;
  validate_period = 600;
  sort = "10";
  status = "000";
  main_id = 7;
}

abbrev db : EmailDb
db = record {
  user_main = λ i. Query.found user;
  user_of_email = λ e. Query.not_found;
  process = λ target code type_name sort. Query.found row;
  save_process = λ p. Created.created 5;
  save_user = λ u. true;
}

abbrev env : MailEnv
env = record {
  sender = "noreply@mail.example";
  new_code = "123456";
  deliver = λ email code. true;
  equal_fold = λ a b. false;
}

two_letters_needed : matches "ann@mail.e" ≡ false
unfolding matches
two_letters_needed = refl

row_stored : (send_email db clock env (some "7") (some "ann@mail.example")).stored ≡ some row
unfolding send_email matches
row_stored = refl

mailed_code_binds_example :
    verify_email db clock (some "7") (some ("ann@mail.example", "123456")) ≡ record {
      response = success clock Payload.nothing;
      stored = some (record user { email = some "ann@mail.example"; status = "20" });
    }
mailed_code_binds_example =
    mailed_code_binds db db clock clock env "7" "ann@mail.example" row user row_stored
      (ground arith) refl refl refl (λ u. refl) (ground arith)

verify_email-Proven_example :
    Proven db clock "7" "ann@mail.example" "123456"
      (verify_email db clock (some "7") (some ("ann@mail.example", "123456"))).stored
verify_email-Proven_example = verify_email-Proven db clock "7" "ann@mail.example" "123456"
