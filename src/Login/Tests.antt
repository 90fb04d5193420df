-- ===== src/Login/Tests.antt =====
-- User 7 registers with an address, and enters with a wallet.
use tradeverse_api.Prelude.{
  ◌+◌, ◌*◌, ◌≤◌, String, true, false, str_eq, if◌then◌else◌, [], ◌∷◌, none, some, ◌≡◌, ◌≢◌, ◌⊎◌,
  refl, arith,
}
use tradeverse_api.Codes
use tradeverse_api.Web.{Clock, second, unix}
use tradeverse_api.Orm.{Query, Created, loaded}
use tradeverse_api.Model.User.{UserMain, UserProvider, no_user, no_provider, no_ref}
use tradeverse_api.Email.{VerificationProcess, no_process, matches}
use tradeverse_api.Tokens.{Bytes, encrypt, expire_ts}
use tradeverse_api.Tokens.Numerals.{format_uint}
use tradeverse_api.Tokens.Texts.{user_token, verify_token}
use tradeverse_api.Tokens.Interceptors.{Gate, token_interceptor}
use tradeverse_api.Tokens.Tests.{plain, plain-IsLawful, now, zeros}
use tradeverse_api.Login.{AuthMessage, LoginDb, LoginEnv, Write, Body, Bound, no_message, respond}
use tradeverse_api.Login.Signatures.{SigLib, compute_auth_digest}
use tradeverse_api.Login.Wallet.{VerifyAuthRequest, verify_message}
use tradeverse_api.Login.Password.{
  RegisterRequest, ConfirmRegisterRequest, new_account, register, verify, login,
}
use tradeverse_api.Login.Entered.{IsStored}
use tradeverse_api.Login.Laws.{verify_message_signed, register_replaces, replaced}
use tradeverse_api.Login.Sessions.{
  body_of, stored_user, stored_provider, login_opens, verified_refused, unverified_logs_in,
}

abbrev pub clock : Clock
clock n = now + n * second

-- Nineteen days later.
abbrev later : Clock
later n = now + 1641600 * second

abbrev env : LoginEnv
env = record {
  cipher = plain;
  draws = λ k n. 0;
  has_generator = true;
  user_no = "42";
  password_hash = λ p. p;
  sender = "noreply@mail.example";
  new_code = "123456";
  deliver = λ email code. true;
  db_error = "";
  token_error = "";
}

abbrev wallet : UserProvider
wallet = record no_provider { id = 5; main_id = 7; provider_type = "wallet"; provider_id = "key" }

abbrev pub auth : AuthMessage
auth = record no_message { id = 3; auth_key = "key"; expire_time = now + 300 * second }

abbrev ann : UserMain
ann = record no_user { id = 7; email = some "ann@mail.example"; password = "secret"; status = "00" }

abbrev process : VerificationProcess
process = record no_process { id = 8; add_time = now; validate_period = 600 }

-- The database knows everybody, but not the address "new@mail.example".
abbrev db : LoginDb
db = record {
  message_of_key = λ k t. Query.found auth;
  message = λ i. Query.found auth;
  save_message = λ m. Created.refused;
  wallet = λ k. Query.found wallet;
  ref_of_code = λ c. Query.not_found;
  ref_of_user = λ i. Query.not_found;
  user_of_email = λ e. if str_eq e "new@mail.example" then Query.not_found else Query.found ann;
  save_user = λ u. Created.created 9;
  save_provider = λ p. Created.created 9;
  process = λ t c k s. Query.found process;
  developer_of_email = λ e. Query.not_found;
}

abbrev request : RegisterRequest
request = record { email = "ann@mail.example"; password = "secret"; ref = "" }

abbrev own_token : Bytes
own_token = 0 ∷ user_token 7 0 0 (expire_ts (clock 1))

logged_in :
    body_of (login db env clock (Bound.good request))
    ≡ Body.session "" (some "ann@mail.example") own_token
unfolding login zeros
logged_in = refl

login_opens_example :
    (env.password_hash "secret" ≡ ann.password)
    × (token_interceptor plain later true own_token none
        ≡ Gate.passed (record {
          main_id = format_uint 7;
          provider_id = format_uint 0;
          provider_type = format_uint 0;
        }))
login_opens_example =
    login_opens db env plain-IsLawful clock later request "" (some "ann@mail.example") own_token
      logged_in (ground arith) (ground arith) (ground arith)

abbrev confirmation : ConfirmRegisterRequest
confirmation = record { email = "ann@mail.example"; code = "123456" }

abbrev useless : Bytes
useless = 0 ∷ verify_token 7 1002

verified : body_of (verify db env clock (Bound.good confirmation)) ≡ Body.verified "" (some useless)
unfolding verify encrypt zeros
verified = refl

verified_refused_example :
    (ann.id ≢ 0)
    × (process.id ≢ 0)
    × (clock 1 ≤ now + 600 * second)
    × ((verify db env clock (Bound.good confirmation)).writes
        ≡ Write.save_user (record ann { status = "20" })
          ∷ Write.save_process (record process { status = "100" })
          ∷ [])
    × (token_interceptor plain later true useless none
        ≡ Gate.aborted Codes.security "token length error" (unix (later 1)))
verified_refused_example =
    verified_refused db env plain-IsLawful clock later confirmation "" useless verified

abbrev fresh : RegisterRequest
fresh = record { email = "new@mail.example"; password = "secret"; ref = "" }

abbrev account : UserMain
account = record (new_account db env clock fresh no_ref) { id = 9 }

-- The database once the account is stored.
abbrev db' : LoginDb
db' = record db { user_of_email = λ e. Query.found account }

abbrev new_token : Bytes
new_token = 0 ∷ user_token 9 0 0 (expire_ts (clock 1))

new_encrypted : encrypt plain (user_token 9 0 0 (expire_ts (clock 1))) ≡ some new_token
unfolding encrypt zeros
new_encrypted = refl

well_formed : matches "new@mail.example" ≡ true
unfolding matches
well_formed = refl

unverified_logs_in_example :
    (stored_user (register db env clock false (Bound.good fresh)).writes ≡ some account)
    × (account.status ≡ "00")
    × (login db' env clock (Bound.good fresh)
        ≡ respond clock "success" (Body.session "42" (some "new@mail.example") new_token) [])
unverified_logs_in_example =
    unverified_logs_in db db' env clock clock fresh 9 new_token well_formed refl refl (refl, refl)
      (ground arith) refl new_encrypted

-- Keys are texts, and every signature is that of its key.
abbrev pub lib : SigLib String
lib = record {
  trim_space = λ s. s;
  equal_fold = str_eq;
  hex_decode = λ s. some [];
  base64_decode = λ s. some [];
  base58_decode = λ s. some [];
  keccak256 = λ s. [];
  sig_to_pub = λ d s. some "key";
  address_hex = λ k. k;
  ed25519_verify = λ k m s. true;
}

abbrev pub signed_request : VerifyAuthRequest
signed_request = record { id = 3; sign = "sig"; ref = "" }

digest_accepted : compute_auth_digest lib auth "sig" ≡ true
unfolding compute_auth_digest
digest_accepted = refl

abbrev wallet_token : Bytes
wallet_token = 0 ∷ user_token 7 5 1 (expire_ts (clock 5))

wallet_encrypted : encrypt plain (user_token 7 5 1 (expire_ts (clock 5))) ≡ some wallet_token
unfolding encrypt zeros
wallet_encrypted = refl

entered :
    body_of (verify_message db env clock lib false (Bound.good signed_request))
    ≡ Body.session "" none wallet_token
unfolding verify_message compute_auth_digest zeros
entered = refl

verify_message_signed_example :
    (a : AuthMessage) × (db.message 3 ≡ Query.found a)
    × (clock 1 ≤ a.expire_time)
    × (compute_auth_digest lib a "sig" ≡ true)
    × (false ≡ false)
    × ((w : UserProvider) × (encrypt plain (user_token w.main_id w.id 1 (expire_ts (clock 5)))
          ≡ some wallet_token)
        × ((db.wallet a.auth_key ≡ Query.found w)
            ⊎ (((loaded no_provider (db.wallet a.auth_key)).id ≡ 0)
                × IsStored a.auth_key w
                    (verify_message db env clock lib false (Bound.good signed_request)).writes)))
verify_message_signed_example =
    verify_message_signed lib db env clock false signed_request "" none wallet_token entered

abbrev replacing_request : RegisterRequest
replacing_request = record { email = "ann@mail.example"; password = "other"; ref = "" }

replacing :
    replaced (register db env clock false (Bound.good replacing_request)).writes ≡ some (7, "other")
unfolding register matches
replacing = refl

register_replaces_example :
    (7 ≡ ann.id) × (ann.status ≡ "00") × ("other" ≡ env.password_hash "other")
register_replaces_example =
    register_replaces db env clock false replacing_request 7 "other" replacing

-- A database that knows no wallet, and every referral code.
abbrev walletless : LoginDb
walletless = record db {
  wallet = λ k. Query.not_found;
  ref_of_code = λ c. Query.found (record no_ref { id = 4 });
}

abbrev invited : VerifyAuthRequest
invited = record signed_request { ref = "CODE" }

new_wallet_stored :
    stored_provider (verify_message walletless env clock lib false (Bound.good invited)).writes
    ≡ some (record no_provider {
      id = 9;
      main_id = 9;
      provider_type = "wallet";
      provider_id = "key";
      add_time = clock 3;
      provider_label = "bsc";
    })
unfolding verify_message compute_auth_digest zeros
new_wallet_stored = refl

-- Without a generator `Register` answers nothing.
stuck_register :
    register db (record env { has_generator = false }) clock false (Bound.good fresh)
    ≡ record { reply = none; writes = [] }
unfolding register matches
stuck_register = refl
