-- ===== src/Wallet/Tests/Withdraw.antt =====
-- Runs of `balance_withdraw_request`.
use tradeverse_api.Wallet.Nonce.{big_int_to_hex32}
use tradeverse_api.Wallet.Withdraw.Runs.{CanLock, withdraw_writes}
use tradeverse_api.Wallet.Withdraw.Check.{balance_withdraw_check, withdraw_checked}
use tradeverse_api.Season.{parse_uint}
use tradeverse_api.Prelude.{
  ℕ, ◌≡◌, ◌≢◌, true, false, some, [], ◌∷◌, List, ap, sym, ◌∙◌, arith, refl,
}
use tradeverse_api.Codes
use tradeverse_api.Web.{Payload, Response, failure, success, from_unix}
use tradeverse_api.Orm.{Query, Created}
use tradeverse_api.Model.BalanceOp
use tradeverse_api.Model.Flow.{AccountBalanceFlow, no_balance_flow}
use tradeverse_api.Model.User.{no_provider}
use tradeverse_api.Wallet.Calls.{Write}
use tradeverse_api.Wallet.Withdraw.{
  WithdrawDb, WithdrawEnv, WithdrawReq, lock_flow, withdrawing, expiry, balance_withdraw_request,
}
use tradeverse_api.Wallet.Withdraw.Laws.{Locks, withdraw-Locks}
use tradeverse_api.Wallet.Tests.{clock, user, row, units}

abbrev withdraw_db : WithdrawDb
withdraw_db = record {
  user_main = λ i. Query.found user;
  open_lock = λ u o ss. Query.not_found;
  locked_balance = λ u a. Query.found row;
  provider = λ u t. Query.found (record no_provider { id = 1; provider_id = "0xa" });
  save_balance = λ b. true;
  create_flow = λ f. Created.created 9;
  commit = true;
}

abbrev env : WithdrawEnv
env = record {
  contract_addr = "0xb";
  priv_key_hex = "0xc";
  new_lock_id = some "0xd";
  nonce = 258;
  encode = λ b. "0x";
  decode = λ s. some [];
  big_string = λ n. "258";
  sign = λ c a k w l n e m. some ([], []);
}

abbrev withdraw_req : WithdrawReq ℕ
withdraw_req = record { amount = 30; chain_id = 1; id = 0 }

withdraw_runs :
    (balance_withdraw_request units withdraw_db env clock false
      (some "7")
      (some withdraw_req)).writes
    ≢ []
unfolding balance_withdraw_request
withdraw_runs = ground arith

withdraw-Locks_example :
    Locks 30 user row
      (balance_withdraw_request units withdraw_db env clock false
        (some "7")
        (some withdraw_req)).writes
withdraw-Locks_example =
    withdraw-Locks units withdraw_db env clock false "7" withdraw_req user refl row refl
      (ground arith)

-- The same database with a lock of the user that is still open.
abbrev locked_db : WithdrawDb
locked_db = record withdraw_db {
  open_lock = λ u o ss. Query.found (record no_balance_flow {
    id = 9;
    op = BalanceOp.freeze;
    real_amount = 30;
    lock_expiry = some 100;
  });
}

abbrev busy : Response
busy = failure clock Codes.processing "operating, please do not repeat the operation"

withdraw_busy :
    (balance_withdraw_request units withdraw_db env clock true
      (some "7")
      (some withdraw_req)).response
    ≡ some busy
unfolding balance_withdraw_request
withdraw_busy = ground arith

db-CanLock :
    CanLock withdraw_db env clock "7" 1 30 user
      (record no_provider { id = 1; provider_id = "0xa" })
      row
      "0xd"
      []
      []
      9
db-CanLock = record {
  user_found = refl;
  none_open = refl;
  balance_found = refl;
  enough = ground arith;
  fits = ground arith;
  wallet_found = refl;
  wallet_given = ground arith;
  contract_given = ground arith;
  key_given = ground arith;
  drawn = refl;
  signs = λ time. refl;
  balance_saved = λ c. refl;
  flow_created = λ g. refl;
  committed = refl;
}

abbrev lock : AccountBalanceFlow
lock = record (lock_flow withdraw_db env clock user 30 "0xd" "0xa" []) { id = 9 }

nine_parsed : parse_uint "9" ≡ some 9
unfolding parse_uint
nine_parsed = refl

abbrev stored_flow : List Write → AccountBalanceFlow
stored_flow (w ∷ Write.create_flow f ∷ ws) = f
stored_flow _ = no_balance_flow

lock_stored :
    (balance_withdraw_request units withdraw_db env clock false
      (some "7")
      (some withdraw_req)).writes
    ≡ Write.save_balance (withdrawing withdraw_db env clock 30 row) ∷ Write.create_flow lock ∷ []
lock_stored =
    withdraw_writes units withdraw_db env clock "7" withdraw_req user
      (record no_provider { id = 1; provider_id = "0xa" }) row "0xd" [] [] 9 db-CanLock

withdraw_checked_example :
    balance_withdraw_check (λ m i. Query.found lock) clock (some "7") "9"
    ≡ success clock (
        Payload.lock_status 9 "lock" "pending" "" "0xd" "" "0x"
          (some (from_unix (expiry withdraw_db env clock)))
          (big_int_to_hex32 env.encode 258)
          30)
withdraw_checked_example =
    withdraw_checked units withdraw_db env clock "7" withdraw_req user
      (record no_provider { id = 1; provider_id = "0xa" }) row "0xd" [] [] 9 db-CanLock
      (λ m i. Query.found lock) clock "9" nine_parsed
      (λ c f e. ap Query.found (ap stored_flow (sym lock_stored ∙ e)))
