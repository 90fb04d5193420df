-- ===== src/Wallet/Withdraw/Check.antt =====
-- `BalanceWithdrawCheck`, api/http/controller/auth/user.go: a user asks for an operation of his, such
-- as the lock that `BalanceWithdrawRequest` has made.
use tradeverse_api.Prelude.{
  ℕ, String, List, [], ◌∷◌, ◌==◌, if◌then◌else◌, Option, none, some, Exit, next, exit, ◌>>=◌,
  answer, ◌≡◌, arith, false,
}
use tradeverse_api.Codes
use tradeverse_api.Web.{Clock, Payload, Response, failure, success, from_unix}
use tradeverse_api.Orm.{Query}
use tradeverse_api.Model.BalanceOp
use tradeverse_api.Model.BalanceStatus
use tradeverse_api.Model.Flow.{AccountBalance, AccountBalanceFlow}
use tradeverse_api.Model.User.{UserMain, UserProvider}
use tradeverse_api.Season.{parse_uint}
use tradeverse_api.Wallet.Calls.{Write}
use tradeverse_api.Wallet.Nonce.{big_int_to_hex32}
use tradeverse_api.Wallet.Withdraw.{
  WithdrawDb, WithdrawEnv, WithdrawReq, balance_withdraw_request, lock_flow, expiry,
}
use tradeverse_api.Wallet.Withdraw.Runs.{CanLock, withdraw_writes}

operation_kind : ℕ → String
operation_kind op =
    if op == BalanceOp.recharge
    then "topup"
    else if op == BalanceOp.freeze
    then "lock"
    else if op == BalanceOp.withdraw
    then "withdraw"
    else if op == BalanceOp.unfreeze
    then "unlock"
    else "unknown"

status_name : ℕ → String
status_name status =
    if status == BalanceStatus.pending
    then "pending"
    else if status == BalanceStatus.success
    then "success"
    else if status == BalanceStatus.failed
    then "failed"
    else if status == BalanceStatus.pending_with_draw
    then "pendingWithDraw"
    else if status == BalanceStatus.canceled
    then "canceled"
    else ""

-- The digest is not told.
status_of : AccountBalanceFlow → Payload
unfolding operation_kind status_name
status_of f =
    Payload.lock_status f.id (operation_kind f.op) (status_name f.status) f.tx_hash f.lock_id ""
      f.lock_sig f.lock_expiry f.lock_nonce f.real_amount

-- The flow is looked for by main_id = ? and id = ?.
module _ (flow : String → ℕ → Query AccountBalanceFlow) (clock : Clock) where
  checked_login : Option String → Exit Response String
  checked_login none = exit (failure clock Codes.security "please login first")
  checked_login (some main_id) = next main_id

  parsed_operation : Option ℕ → Exit Response ℕ
  parsed_operation none = exit (failure clock Codes.bad_params "invalid operation_id")
  parsed_operation (some n) = next n

  found_flow : Query AccountBalanceFlow → Exit Response AccountBalanceFlow
  found_flow (Query.found f) = next f
  found_flow _ = exit (failure clock Codes.unknown "query account balance flow failed")

  unfoldable pub balance_withdraw_check : Option String → String → Response
  unfolding checked_login parsed_operation found_flow status_of
  balance_withdraw_check login operation_id_str = answer do
    main_id ← checked_login login
    operation_id ← parsed_operation (parse_uint operation_id_str)
    f ← found_flow (flow main_id operation_id)
    next (success clock (status_of f))

module _ {Decimal : Type 0} (units : Decimal → ℕ) (db : WithdrawDb) (env : WithdrawEnv)
    (clock : Clock) (main_id : String) (req : WithdrawReq Decimal) (user : UserMain)
    (wallet : UserProvider) (b : AccountBalance) (lock_id : String) (digest sig : List ℕ) (key : ℕ)
    (can : CanLock db env clock main_id req.chain_id
      (units req.amount)
      user
      wallet
      b
      lock_id
      digest
      sig
      key) where
  -- If the user can be given a lock, and the database later finds for the user's operation the flow
  -- that `balance_withdraw_request` has stored, `balance_withdraw_check` tells the lock as it was made
  -- out: pending, with its id, signature, expiry, nonce in hexadecimal and amount.
  pub withdraw_checked :
      (later : String → ℕ → Query AccountBalanceFlow) (clock' : Clock) (id_str : String)
      → parse_uint id_str ≡ some key
      → ((c : AccountBalance) (f : AccountBalanceFlow)
          → (balance_withdraw_request units db env clock false (some main_id) (some req)).writes
            ≡ Write.save_balance c ∷ Write.create_flow f ∷ []
          → later main_id f.id ≡ Query.found f)
      → balance_withdraw_check later clock' (some main_id) id_str
        ≡ success clock' (
            Payload.lock_status key "lock" "pending" "" lock_id ""
              (env.encode sig)
              (some (from_unix (expiry db env clock)))
              (big_int_to_hex32 env.encode env.nonce)
              (units req.amount))
  unfolding balance_withdraw_check lock_flow
  withdraw_checked later clock' id_str parsed kept =
      let f = lock_flow db env clock user (units req.amount) lock_id wallet.provider_id sig in
      ground (
        arith,
        kept _ _ (
            withdraw_writes units db env clock main_id req user wallet b lock_id digest sig key
              can),
      )
