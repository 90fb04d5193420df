-- ===== src/Wallet/Report.antt =====
-- `BalanceTopupReport`, api/http/controller/auth/user.go: a user reports the hash of a transaction
-- that was sent to the chain. The amount `req.Amount.Mul(1000000).Round(0).BigInt().Uint64()` is
-- `units req.amount`, an argument, since the decimals are those of shopspring/decimal. The panic
-- handler is left out.
use tradeverse_api.Prelude.{
  ℕ, ◌+◌, ◌-◌, ◌≤◌, String, Bool, true, false, not, ◌&&◌, ◌||◌, List, [], ◌∷◌, ltb, leb, ◌==◌,
  str_eq, if◌then◌else◌, Option, none, some, Exit, next, exit, ◌>>=◌, ◌>>◌, return_if, answer,
  codes, length,
}
use tradeverse_api.Prelude.Words.{add64}
use tradeverse_api.Codes
use tradeverse_api.Web.{Clock, Payload, Response, success, failure}
use tradeverse_api.Orm.{Query, Created, Saved, loaded}
use tradeverse_api.Model.BalanceOp
use tradeverse_api.Model.BalanceStatus
use tradeverse_api.Model.Flow.{AccountBalance, AccountBalanceFlow, no_balance_flow}
use tradeverse_api.Model.User.{UserMain, no_user}
use tradeverse_api.Wallet.Calls.{Write, QueuePassObject}
pub mod Laws

pub record ReportDb : Type 0 where
  -- id = ?
  pub user_main : String → Query UserMain
  -- id = ?
  pub flow : ℕ → Query AccountBalanceFlow
  -- main_id = ? and tx_hash = ?, behind the primary key that the row variable already holds, which
  -- GORM adds to the condition if it is not 0
  pub flow_of_tx : ℕ → ℕ → String → Query AccountBalanceFlow
  -- FOR UPDATE, main_id = ? and asset_id = ?
  pub locked_balance : ℕ → ℕ → Query AccountBalance
  pub save_flow : AccountBalanceFlow → Saved
  -- `Save` of a row with no primary key, outside the transaction
  pub insert_flow : AccountBalanceFlow → Created
  pub create_flow : AccountBalanceFlow → Created
  pub save_balance : AccountBalance → Saved
  pub commit : Saved
  -- `fmt.Sprintf("%d", n)`
  pub sprintf_d : ℕ → String

pub record TopupReq (Decimal : Type 0) : Type 0 where
  pub tx_hash : String
  pub chain_id : ℕ
  pub amount : Decimal
  pub type_name : String
  pub ref_id : ℕ

-- The response, the durable writes, and what was handed to the chain queue.
pub record Outcome : Type 0 where
  pub response : Response
  pub writes : List Write
  pub queued : List QueuePassObject

abbrev pub refuse : Clock → ℕ → String → Outcome
refuse clock c m = record { response = failure clock c m; writes = []; queued = [] }

is_hex : ℕ → Bool
is_hex c = leb b'0' c && leb c b'9' || (leb b'a' c && leb c b'f' || leb b'A' c && leb c b'F')

all_hex : List ℕ → Bool
unfolding is_hex
all_hex [] = true
all_hex (c ∷ cs) = is_hex c && all_hex cs

-- `^0x[0-9a-fA-F]{64}$`
hash_digits : List ℕ → Bool
unfolding all_hex
hash_digits (z ∷ x ∷ cs) = z == b'0' && (x == b'x' && (length cs == 64 && all_hex cs))
hash_digits _ = false

matches_hash : String → Bool
unfolding hash_digits
matches_hash s = hash_digits (codes s)

abbrev needs_ref : String → Bool
needs_ref t = str_eq t "withdraw" || (str_eq t "lock" || str_eq t "cancel")

module _ {Decimal : Type 0} (units : Decimal → ℕ) (db : ReportDb) (clock : Clock) where
  report_request : Option (TopupReq Decimal) → Exit Outcome (TopupReq Decimal)
  report_request none = exit (refuse clock Codes.bad_params "param error")
  report_request (some req) = do
    return_if (not (str_eq req.type_name "recharge" || needs_ref req.type_name))
        (refuse clock Codes.bad_params "invalid type")
    next req

  logged_in : Option String → Exit Outcome String
  logged_in none = exit (refuse clock Codes.security "please login first")
  logged_in (some main_id) = next main_id

  -- The checks before the request's type is looked at.
  check_report :
      Option String → Option (TopupReq Decimal) → Exit Outcome (TopupReq Decimal × UserMain)
  unfolding report_request logged_in matches_hash
  check_report login body = do
    req ← report_request body
    main_id ← logged_in login
    return_if (needs_ref req.type_name && req.ref_id == 0)
        (refuse clock Codes.bad_params "ref_id required")
    return_if (not (matches_hash req.tx_hash)) (refuse clock Codes.bad_params "invalid tx hash")
    let user = loaded no_user (db.user_main main_id)
    return_if (user.id == 0) (refuse clock Codes.obj_not_found "user not found")
    next (req, user)

  abbrev queue_object : TopupReq Decimal → UserMain → ℕ → ℕ → QueuePassObject
  queue_object req user ref op = record {
    chain_id = req.chain_id;
    tx_hash = req.tx_hash;
    main_id = user.id;
    ref_flow_id = ref;
    op = op;
  }

  -- "lock": the hash goes into the lock's own flow.
  report_lock : TopupReq Decimal → UserMain → AccountBalanceFlow → Outcome
  report_lock req user lock =
      let lock' = record lock { tx_hash = req.tx_hash; update_time = clock 1 } in
      if not (db.save_flow lock')
      then refuse clock Codes.unknown "update account balance flow failed"
      else record {
        response = success clock Payload.nothing;
        writes = Write.save_flow lock' ∷ [];
        queued = queue_object req user lock.id BalanceOp.freeze ∷ [];
      }

  cancel_flow : TopupReq Decimal → UserMain → AccountBalanceFlow → AccountBalanceFlow
  cancel_flow req user lock = record no_balance_flow {
    main_id = user.id;
    tx_hash = req.tx_hash;
    add_time = clock 2;
    update_time = clock 3;
    amount = lock.real_amount;
    op = BalanceOp.unfreeze;
    status = BalanceStatus.pending;
    chain_id = db.sprintf_d req.chain_id;
    ref_flow_id = lock.id;
  }

  cancel_stored : TopupReq Decimal → UserMain → AccountBalanceFlow → Created → Outcome
  cancel_stored req user f (Created.created i) = record {
    response = success clock Payload.nothing;
    writes = Write.create_flow (record f { id = i }) ∷ [];
    queued = queue_object req user i BalanceOp.unfreeze ∷ [];
  }
  cancel_stored req user f Created.duplicate =
      refuse clock Codes.unknown "update account balance flow failed"
  cancel_stored req user f Created.refused =
      refuse clock Codes.unknown "update account balance flow failed"

  -- "cancel": a new flow that refers to the lock.
  report_cancel : TopupReq Decimal → UserMain → AccountBalanceFlow → Outcome
  unfolding cancel_flow cancel_stored
  report_cancel req user lock =
      let f = cancel_flow req user lock in cancel_stored req user f (db.insert_flow f)

  found_lock : Query AccountBalanceFlow → Exit Outcome AccountBalanceFlow
  found_lock (Query.found f) = do
    return_if (f.id == 0) (refuse clock Codes.obj_not_found "account balance flow not found")
    next f
  found_lock Query.not_found =
      exit (refuse clock Codes.obj_not_found "account balance flow not found")
  found_lock Query.failed = exit (refuse clock Codes.unknown "query account balance flow failed")

  -- The flow that a withdrawal, a lock or a cancel refers to. A lock or a cancel ends here.
  referred_flow : TopupReq Decimal → UserMain → Exit Outcome AccountBalanceFlow
  unfolding found_lock report_lock report_cancel
  referred_flow req user =
      if needs_ref req.type_name
      then (do
        lock ← found_lock (db.flow req.ref_id)
        return_if (str_eq req.type_name "lock") (report_lock req user lock)
        return_if (str_eq req.type_name "cancel") (report_cancel req user lock)
        next lock)
      else next no_balance_flow

  report_amount : TopupReq Decimal → AccountBalanceFlow → ℕ
  report_amount req lock =
      if str_eq req.type_name "withdraw" then lock.real_amount else units req.amount

  report_op : TopupReq Decimal → ℕ
  report_op req = if str_eq req.type_name "recharge" then BalanceOp.recharge else BalanceOp.withdraw

  reported_flow : TopupReq Decimal → UserMain → AccountBalanceFlow → AccountBalanceFlow
  unfolding report_amount report_op
  reported_flow req user lock = record no_balance_flow {
    main_id = user.id;
    tx_hash = req.tx_hash;
    add_time = clock 4;
    update_time = clock 5;
    amount = report_amount req lock;
    op = report_op req;
    status = BalanceStatus.pending;
    chain_id = db.sprintf_d req.chain_id;
    ref_flow_id = lock.id;
  }

  account_of : Query AccountBalance → Exit Outcome AccountBalance
  account_of (Query.found b) = next b
  account_of Query.not_found = exit (refuse clock Codes.obj_not_found "user account not found")
  account_of Query.failed = exit (refuse clock Codes.obj_not_found "user account not found")

  created_id : Created → Exit Outcome ℕ
  created_id (Created.created i) = next i
  created_id Created.duplicate =
      exit (
        refuse clock Codes.unknown "handle topup transaction failed, please try report it manually")
  created_id Created.refused =
      exit (
        refuse clock Codes.unknown "handle topup transaction failed, please try report it manually")

  -- The transaction of a recharge or a withdrawal.
  report_flow : TopupReq Decimal → UserMain → AccountBalanceFlow → Exit Outcome Outcome
  unfolding account_of created_id reported_flow
  report_flow req user lock = do
    b ← account_of (db.locked_balance user.id 0)
    let b' = record b {
      withdrawal =
          if str_eq req.type_name "lock"
          then add64 b.withdrawal (report_amount req lock)
          else b.withdrawal;
      update_time = clock 6;
    }
    return_if (not (db.save_balance b'))
        (refuse clock Codes.unknown "update user account balance failed")
    let f = reported_flow req user lock
    i ← created_id (db.create_flow f)
    return_if (not db.commit) (refuse clock Codes.unknown "commit transaction failed")
    next (record {
      response = success clock Payload.nothing;
      writes = Write.save_balance b' ∷ Write.create_flow (record f { id = i }) ∷ [];
      queued = queue_object req user i (report_op req) ∷ [];
    })

  unfoldable pub balance_topup_report : Option String → Option (TopupReq Decimal) → Outcome
  unfolding check_report referred_flow report_flow
  balance_topup_report login body = answer do
    (req, user) ← check_report login body
    lock ← referred_flow req user
    let lock' = loaded lock (db.flow_of_tx lock.id user.id req.tx_hash)
    return_if (ltb 0 lock'.id && not (lock'.id == req.ref_id))
        (refuse clock Codes.repeat "tx hash already exists")
    report_flow req user lock'
