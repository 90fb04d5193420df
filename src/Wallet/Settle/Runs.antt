-- ===== src/Wallet/Settle/Runs.antt =====
-- A run of `UpdateAccountBalance`, service/account_balance.go, for a lock that was cancelled on the
-- chain.
use tradeverse_api.Prelude.{
  ℕ, ◌+◌, ◌-◌, ◌≤◌, ◌<◌, true, ◌≡◌, ◌≢◌, none, some, [], ◌∷◌, arith, eq_iff, refl,
}
use tradeverse_api.Prelude.Words.{u64_mod, add64, sub64}
use tradeverse_api.Web.{Clock}
use tradeverse_api.Orm.{Query}
use tradeverse_api.Model.BalanceOp
use tradeverse_api.Model.BalanceStatus
use tradeverse_api.Model.Flow.{AccountBalance, AccountBalanceFlow}
use tradeverse_api.Wallet.Calls.{Write, TopupTxInfo, SettleDb}
use tradeverse_api.Wallet.Settle.{update_account_balance, settled_target}

-- A successful cancel over `n`: its flow `t` is pending, the flow `w` that it names refers to the
-- lock `r`, which waits to be withdrawn; the balance row `b` has `n` on withdrawal; and every row
-- can be stored.
pub record CanCancel (db : SettleDb) (top : TopupTxInfo) (t w r : AccountBalanceFlow)
    (b : AccountBalance) (n : ℕ) : Type 0 where
  pub is_cancel : top.op ≡ BalanceOp.unfreeze
  pub succeeded : top.status ≡ "success"
  pub amount_known : top.amount ≡ some n
  pub named_found : db.flow top.ref_flow_id ≡ Query.found w
  pub named_known : w.id ≢ 0
  pub lock_found : db.flow w.ref_flow_id ≡ Query.found r
  pub lock_known : r.id ≢ 0
  pub lock_open : r.status ≡ BalanceStatus.pending_with_draw
  pub target_found : db.locked_flow top.main_id top.tx_hash ≡ Query.found t
  pub target_pending : t.status ≡ BalanceStatus.pending
  pub balance_found : db.locked_balance top.main_id ≡ Query.found b
  pub enough : n ≤ b.withdrawal
  pub fits : b.available + b.withdrawal < u64_mod
  pub flow_saved : (f : AccountBalanceFlow) → db.save_flow f ≡ true
  pub balance_saved : (c : AccountBalance) → db.save_balance c ≡ true
  pub committed : db.commit ≡ true

module _ (db : SettleDb) (clock : Clock) (top : TopupTxInfo) (t w r : AccountBalanceFlow)
    (b : AccountBalance) (n : ℕ) (can : CanCancel db top t w r b n) where
  -- If every row can be stored and the user's balance row is found with the amount on withdrawal,
  -- where available money and money on withdrawal together fit in a uint64: a successful cancel of
  -- a lock that waits to be withdrawn returns no error and makes three rows durable, the lock as
  -- cancelled, the cancel's own flow as successful with the amount, and the balance with the amount
  -- moved from withdrawal back to available.
  pub settle_cancel :
      (t' : AccountBalanceFlow) × (update_account_balance db clock top ≡ record {
        err = none;
        writes =
            Write.save_flow (record r { status = BalanceStatus.canceled; update_time = clock 0 })
            ∷ Write.save_flow t'
            ∷ Write.save_balance (record b {
              withdrawal = b.withdrawal - n;
              available = b.available + n;
              update_time = clock 3;
            })
            ∷ [];
      })
      × (t'.id ≡ t.id)
      × (t'.status ≡ BalanceStatus.success)
      × (t'.real_amount ≡ n)
  unfolding update_account_balance settled_target add64 sub64
  settle_cancel =
      let t' = settled_target db clock top t n in
      (
        t',
        ground (
          arith,
          eq_iff top.status "success",
          can.flow_saved (record r { status = BalanceStatus.canceled; update_time = clock 0 }),
          can.flow_saved t',
          can.balance_saved (record b {
            withdrawal = b.withdrawal - n;
            available = b.available + n;
            update_time = clock 3;
          }),
        ),
        refl,
        ground (arith, eq_iff top.status "success"),
        refl,
      )
