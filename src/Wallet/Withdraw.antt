-- ===== src/Wallet/Withdraw.antt =====
-- `BalanceWithdrawRequest`, api/http/controller/auth/user.go: a user asks for a signed lock of an
-- amount, in four stages: the checks, a lock that is still open, the balance, the signature.
-- The lock map of the requests is in `Season.Locks`; here `held` says that `LoadOrStore` found the
-- user's key. The panic handler of the transaction is left out.
use tradeverse_api.Prelude.{
  ℕ, ◌+◌, ◌*◌, String, len, Bool, true, false, not, ◌||◌, List, [], ◌∷◌, ltb, ◌==◌, if◌then◌else◌,
  Option, none, some, Exit, next, exit, ◌>>=◌, ◌>>◌, return_if, answer,
}
use tradeverse_api.Prelude.Words.{add64, sub64}
use tradeverse_api.Codes
use tradeverse_api.Web.{Clock, Time, Payload, Response, success, failure, unix, from_unix, second}
use tradeverse_api.Orm.{Query, Created, Saved, loaded}
use tradeverse_api.Model.BalanceOp
use tradeverse_api.Model.BalanceStatus
use tradeverse_api.Model.Flow.{AccountBalance, AccountBalanceFlow, no_balance_flow}
use tradeverse_api.Model.User.{UserMain, UserProvider, no_provider}
use tradeverse_api.Wallet.Calls.{Write}
use tradeverse_api.Wallet.Nonce.{big_int_to_hex32, hex32_to_big_int}
pub mod Laws
pub mod Runs
pub mod Check

pub record WithdrawDb : Type 0 where
  -- id = ?
  pub user_main : String → Query UserMain
  -- main_id = ? and op = ? AND status IN ?
  pub open_lock : ℕ → ℕ → List ℕ → Query AccountBalanceFlow
  -- FOR UPDATE, main_id = ? and asset_id = ?
  pub locked_balance : ℕ → ℕ → Query AccountBalance
  -- main_id = ? and provider_type = ?
  pub provider : ℕ → String → Query UserProvider
  pub save_balance : AccountBalance → Saved
  pub create_flow : AccountBalanceFlow → Created
  pub commit : Saved

-- What the handler takes from its surroundings: the process environment, the random sources, the
-- text functions of Go and go-ethereum, and `chain.BuildAndSignLockAuth` with its arguments in
-- order (chain, contract, key, wallet, lock, amount, expiry, nonce), whose answer is the digest and
-- the signature.
pub record WithdrawEnv : Type 0 where
  -- os.Getenv("TOPUP_CONTRACT")
  pub contract_addr : String
  -- os.Getenv("WITHDRAW_LOCK_PK")
  pub priv_key_hex : String
  -- tools.NewLockID32(), the hexadecimal form
  pub new_lock_id : Option String
  -- generateInternalNonce()
  pub nonce : ℕ
  -- hexutil.Encode, hexutil.Decode
  pub encode : List ℕ → String
  pub decode : String → Option (List ℕ)
  -- `String` of math/big, which writes "<nil>" for `nil`
  pub big_string : Option ℕ → String
  pub sign : ℕ → String → String → String → String → ℕ → ℕ → ℕ → Option (List ℕ × List ℕ)

pub record WithdrawReq (Decimal : Type 0) : Type 0 where
  pub amount : Decimal
  pub chain_id : ℕ
  pub id : ℕ

-- `none` is a panic, which leaves the request without this handler's response.
pub record Outcome : Type 0 where
  pub response : Option Response
  pub writes : List Write

abbrev pub reply : Response → Outcome
reply r = record { response = some r; writes = [] }

abbrev pub refuse : Clock → ℕ → String → Outcome
refuse clock c m = reply (failure clock c m)

abbrev pub panicked : Outcome
panicked = record { response = none; writes = [] }

-- `expiryDuration`, 10 hours
abbrev pub expiry_duration : ℕ
expiry_duration = 36000 * second

module _ (db : WithdrawDb) (env : WithdrawEnv) (clock : Clock) where
  logged_in : Option String → Exit Outcome String
  logged_in none = exit (refuse clock Codes.security "please login first")
  logged_in (some main_id) = next main_id

  found_user : Query UserMain → Exit Outcome UserMain
  found_user (Query.found u) = next u
  found_user Query.not_found = exit (refuse clock Codes.unknown "query user main failed")
  found_user Query.failed = exit (refuse clock Codes.unknown "query user main failed")

  -- `existLockFlow.LockExpiry` is a pointer.
  deref_expiry : Option Time → Exit Outcome Time
  deref_expiry none = exit panicked
  deref_expiry (some t) = next t

  lock_kind : AccountBalanceFlow → String
  lock_kind f = if f.status == BalanceStatus.pending_with_draw then "withdraw" else "lock"

  open_ticket : AccountBalanceFlow → Time → Payload
  unfolding lock_kind
  open_ticket f t =
      Payload.lock_ticket f.id (lock_kind f) f.lock_id "" f.lock_sig (unix t)
        (env.big_string (hex32_to_big_int env.decode f.lock_nonce)) f.real_amount

  -- A lock that is still open is handed out again, if it is for the same amount and has not
  -- expired.
  open_lock : ℕ → AccountBalanceFlow → Exit Outcome (Unit {0})
  unfolding deref_expiry open_ticket
  open_lock amount f =
      if ltb 0 f.id
      then (do
        t ← deref_expiry f.lock_expiry
        return_if (not (amount == f.real_amount))
            (refuse clock Codes.bad_params "lock amount is not equal to the request amount")
        return_if (ltb t (clock 1))
            (refuse clock Codes.req_expired "lock expiry is before the current time")
        exit (reply (success clock (open_ticket f t))))
      else next tt

  account_of : Query AccountBalance → Exit Outcome AccountBalance
  account_of (Query.found b) = next b
  account_of Query.not_found = exit (refuse clock Codes.obj_not_found "user account not found")
  account_of Query.failed = exit (refuse clock Codes.unknown "query user account balance failed")

  -- The amount moves from the available money to the money on withdrawal.
  unfoldable pub withdrawing : ℕ → AccountBalance → AccountBalance
  withdrawing amount b = record b {
    available = sub64 b.available amount;
    withdrawal = add64 b.withdrawal amount;
    update_time = clock 2;
  }

  drawn_lock_id : Option String → Exit Outcome String
  drawn_lock_id none = exit (refuse clock Codes.unknown "new lock id failed")
  drawn_lock_id (some s) = next s

  signed : Option (List ℕ × List ℕ) → Exit Outcome (List ℕ × List ℕ)
  signed none = exit (refuse clock Codes.unknown "build and sign lock auth failed")
  signed (some ds) = next ds

  -- `uint64(timeNow.Add(expiryDuration).Unix())`
  unfoldable pub expiry : ℕ
  expiry = unix (clock 3 + expiry_duration)

  unfoldable pub lock_flow : UserMain → ℕ → String → String → List ℕ → AccountBalanceFlow
  unfolding expiry
  lock_flow user amount lock_id wallet sig = record no_balance_flow {
    main_id = user.id;
    asset_id = 0;
    op = BalanceOp.freeze;
    status = BalanceStatus.pending;
    amount = amount;
    real_amount = amount;
    add_time = clock 3;
    update_time = clock 3;
    lock_id = lock_id;
    lock_sig = env.encode sig;
    lock_expiry = some (from_unix expiry);
    lock_nonce = big_int_to_hex32 env.encode env.nonce;
    lock_addr = wallet;
  }

  created_id : Created → Exit Outcome ℕ
  created_id (Created.created i) = next i
  created_id Created.duplicate = exit (refuse clock Codes.unknown "create user account flow failed")
  created_id Created.refused = exit (refuse clock Codes.unknown "create user account flow failed")

  -- The transaction: lock the balance, move the amount, sign the lock, record it, commit.
  new_lock : UserMain → ℕ → ℕ → Exit Outcome Outcome
  unfolding account_of withdrawing drawn_lock_id signed expiry lock_flow created_id
  new_lock user chain_id amount = do
    b ← account_of (db.locked_balance user.id 0)
    return_if (ltb b.available amount) (refuse clock Codes.bad_params "insufficient balance")
    let b' = withdrawing amount b
    return_if (not (db.save_balance b'))
        (refuse clock Codes.unknown "update and lock user account balance failed")
    let wallet = (loaded no_provider (db.provider user.id "wallet")).provider_id
    return_if (len env.contract_addr == 0 || len env.priv_key_hex == 0)
        (refuse clock Codes.unknown "sign config missing")
    return_if (len wallet == 0) (refuse clock Codes.unknown "user address missing")
    lock_id ← drawn_lock_id env.new_lock_id
    (digest, sig) ← signed (
        env.sign chain_id env.contract_addr env.priv_key_hex wallet lock_id amount expiry env.nonce)
    let f = lock_flow user amount lock_id wallet sig
    i ← created_id (db.create_flow f)
    return_if (not db.commit) (refuse clock Codes.unknown "commit transaction failed")
    next (record {
      response = some (
          success clock (
            Payload.lock_ticket i "lock" lock_id (env.encode digest) (env.encode sig) expiry
              (env.big_string (some env.nonce)) amount));
      writes = Write.save_balance b' ∷ Write.create_flow (record f { id = i }) ∷ [];
    })

module _ {Decimal : Type 0} (units : Decimal → ℕ) (db : WithdrawDb) (env : WithdrawEnv)
    (clock : Clock) where
  bound_request : Option (WithdrawReq Decimal) → Exit Outcome (WithdrawReq Decimal)
  bound_request none = exit (refuse clock Codes.bad_params "param error")
  bound_request (some req) = next req

  unfoldable pub balance_withdraw_request :
      Bool → Option String → Option (WithdrawReq Decimal) → Outcome
  unfolding bound_request logged_in found_user open_lock new_lock
  balance_withdraw_request held login body = answer do
    req ← bound_request body
    main_id ← logged_in db env clock login
    return_if held (refuse clock Codes.processing "operating, please do not repeat the operation")
    let amount = units req.amount
    user ← found_user db env clock (db.user_main main_id)
    open_lock db env clock amount (
        loaded no_balance_flow (
          db.open_lock user.id BalanceOp.freeze
            (BalanceStatus.pending ∷ BalanceStatus.pending_with_draw ∷ [])))
    new_lock db env clock user req.chain_id amount
