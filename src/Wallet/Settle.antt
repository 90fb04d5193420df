-- ===== src/Wallet/Settle.antt =====
-- `UpdateAccountBalance`, service/account_balance.go: what a parsed transaction does to its flow,
-- to the lock that the flow refers to, and to the user's balance. `int(blockNumber)` is kept as
-- the number that it is below 2 ^ 63. A panic, at an amount that is `nil`, is caught by the
-- deferred function: the transaction is rolled back and the function returns `nil`.
use tradeverse_api.Prelude.{
  ℕ, ◌%◌, String, Bool, true, false, not, ◌&&◌, ◌||◌, List, [], ◌∷◌, ◌++◌, ltb, ◌==◌, str_eq,
  if◌then◌else◌, Option, none, some, Exit, next, exit, ◌>>=◌, ◌>>◌, return_if, answer,
}
use tradeverse_api.Prelude.Words.{u64_mod, add64, sub64}
use tradeverse_api.Web.{Clock}
use tradeverse_api.Orm.{Query, Created, loaded}
use tradeverse_api.Model.BalanceOp
use tradeverse_api.Model.BalanceStatus
use tradeverse_api.Model.Flow.{AccountBalance, AccountBalanceFlow, no_balance, no_balance_flow}
use tradeverse_api.Wallet.Calls.{Write, TopupTxInfo, SettleDb}
pub mod Laws
pub mod Runs

pub data Err : Type 0 where
  -- "withdraw flow id not found"
  withdraw_flow_not_found : Err
  -- "ref flow id not found"
  ref_flow_not_found : Err
  -- "account balance flow not found"
  flow_not_found : Err
  -- "account balance flow not pending, already processed"
  flow_not_pending : Err
  -- "withdrawal amount is greater than available balance"
  withdrawal_exceeded : Err
  -- an error that GORM returned
  database : Err

-- The returned error, and the writes that became durable.
pub record Settled : Type 0 where
  pub err : Option Err
  pub writes : List Write

abbrev pub fail : Err → Settled
fail e = record { err = some e; writes = [] }

-- `recover()`: rolled back, and the result is the zero value of `error`
abbrev pub panicked : Settled
panicked = record { err = none; writes = [] }

-- `amount.Uint64()`
uint64 : Option ℕ → Exit Settled ℕ
uint64 none = exit panicked
uint64 (some n) = next (n % u64_mod)

module _ (db : SettleDb) (clock : Clock) (top : TopupTxInfo) where
  -- The lock that a claim or a cancel refers to, through its own flow.
  ref_lock : Exit Settled AccountBalanceFlow
  ref_lock =
      if top.op == BalanceOp.withdraw || top.op == BalanceOp.unfreeze
      then (do
        let w = loaded no_balance_flow (db.flow top.ref_flow_id)
        return_if (w.id == 0) (fail withdraw_flow_not_found)
        let r = loaded no_balance_flow (db.flow w.ref_flow_id)
        return_if (r.id == 0) (fail ref_flow_not_found)
        next r)
      else next no_balance_flow

  target_flow : Query AccountBalanceFlow → Exit Settled AccountBalanceFlow
  target_flow (Query.found t) = next t
  target_flow Query.not_found = exit (fail flow_not_found)
  target_flow Query.failed = exit (fail database)

  is_success : Bool
  is_success = str_eq top.status "success"

  target_status : ℕ
  unfolding is_success
  target_status =
      if is_success
      then (if top.op == BalanceOp.freeze
          then BalanceStatus.pending_with_draw
          else BalanceStatus.success)
      else BalanceStatus.failed

  lock_saved : AccountBalanceFlow → ℕ → Exit Settled (List Write)
  lock_saved r status =
      let r' = record r { status = status; update_time = clock 0 } in
      if not (db.save_flow r') then exit (fail database) else next (Write.save_flow r' ∷ [])

  -- A successful claim closes the lock and a successful cancel cancels it, if it is still open.
  settled_lock : AccountBalanceFlow → Exit Settled (List Write)
  unfolding is_success lock_saved
  settled_lock r =
      if is_success && top.op == BalanceOp.withdraw
      then (if r.status == BalanceStatus.pending_with_draw
          then lock_saved r BalanceStatus.success
          else next [])
      else if is_success && top.op == BalanceOp.unfreeze
      then (if r.status == BalanceStatus.pending_with_draw
          then lock_saved r BalanceStatus.canceled
          else next [])
      else next []

  unfoldable pub settled_target : AccountBalanceFlow → ℕ → AccountBalanceFlow
  unfolding target_status
  settled_target t amount = record t {
    status = target_status;
    update_time = clock 1;
    block_height = top.block_number;
    block_timestamp = top.block_time;
    log_index = 0;
    from_addr = top.user_from_log;
    to_addr = top.to;
    real_amount = amount;
    chain_id = db.sprintf_d top.chain_id;
  }

  new_balance : AccountBalance
  new_balance = record no_balance { main_id = top.main_id; update_time = clock 2 }

  created_balance : Created → Exit Settled (List Write × AccountBalance)
  unfolding new_balance
  created_balance (Created.created i) =
      let b = record new_balance { id = i } in next (Write.create_balance b ∷ [], b)
  created_balance Created.duplicate = exit (fail database)
  created_balance Created.refused = exit (fail database)

  user_balance : Query AccountBalance → Exit Settled (List Write × AccountBalance)
  unfolding new_balance created_balance
  user_balance (Query.found b) = next ([], b)
  user_balance Query.not_found = created_balance (db.create_balance new_balance)
  user_balance Query.failed = exit (fail database)

  -- `switch op`
  moved_balance : ℕ → AccountBalance → Exit Settled AccountBalance
  moved_balance amount b =
      if top.op == BalanceOp.recharge
      then next (record b { available = add64 b.available amount })
      else if top.op == BalanceOp.withdraw
      then (do
        return_if (ltb b.withdrawal amount) (fail withdrawal_exceeded)
        next (record b { withdrawal = sub64 b.withdrawal amount }))
      else if top.op == BalanceOp.unfreeze
      then (do
        return_if (ltb b.withdrawal amount) (fail withdrawal_exceeded)
        next (record b {
          withdrawal = sub64 b.withdrawal amount;
          available = add64 b.available amount;
        }))
      else next b

  committed : List Write → Settled
  committed ws = if not db.commit then fail database else record { err = none; writes = ws }

  -- From the saved flow on: a failed transaction ends here, any other moves the balance.
  credit : List Write → AccountBalanceFlow → ℕ → Exit Settled Settled
  unfolding user_balance moved_balance committed
  credit ws t amount =
      if not (t.status == BalanceStatus.success)
        && not (t.status == BalanceStatus.pending_with_draw)
      then next (committed ws)
      else do
        (opened, b) ← user_balance (db.locked_balance top.main_id)
        moved ← moved_balance amount b
        let b' = record moved { update_time = clock 3 }
        return_if (not (db.save_balance b')) (fail database)
        next (committed (ws ++ (opened ++ (Write.save_balance b' ∷ []))))

  unfoldable pub update_account_balance : Settled
  unfolding ref_lock target_flow settled_lock uint64 settled_target credit
  update_account_balance = answer do
    r ← ref_lock
    t ← target_flow (db.locked_flow top.main_id top.tx_hash)
    return_if (not (t.status == BalanceStatus.pending)) (fail flow_not_pending)
    ws ← settled_lock r
    amount ← uint64 top.amount
    let t' = settled_target t amount
    return_if (not (db.save_flow t')) (fail database)
    credit (ws ++ (Write.save_flow t' ∷ [])) t' amount
