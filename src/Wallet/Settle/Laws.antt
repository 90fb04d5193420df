-- ===== src/Wallet/Settle/Laws.antt =====
-- What `update_account_balance` writes.
use tradeverse_api.Prelude.{
  ℕ, ◌+◌, ◌%◌, ◌<◌, true, ◌≡◌, ◌≢◌, ◌⊎◌, refl, Option, none, some, List, [], ◌∷◌, arith, ◌==◌,
  if◌then◌else◌, eq_iff,
}
use tradeverse_api.Prelude.Words.{u64_mod, add64, sub64}
use tradeverse_api.Web.{Clock}
use tradeverse_api.Orm.{Query}
use tradeverse_api.Model.BalanceOp
use tradeverse_api.Model.BalanceStatus
use tradeverse_api.Model.Flow.{AccountBalance, AccountBalanceFlow}
use tradeverse_api.Wallet.Calls.{Write, TopupTxInfo, SettleDb}
use tradeverse_api.Wallet.Settle.{update_account_balance, settled_target}

-- The last balance row and the last flow row that the writes save.
abbrev pub saved_balance : List Write → Option AccountBalance
saved_balance [] = none
saved_balance (Write.save_balance b ∷ ws) = some b
saved_balance (_ ∷ ws) = saved_balance ws

-- The writes save a row.
abbrev pub Saves : AccountBalanceFlow → List Write → Type 0
Saves t [] = ⊥
Saves t (Write.save_flow f ∷ ws) = (f ≡ t) ⊎ Saves t ws
Saves t (_ ∷ ws) = Saves t ws

module _ (db : SettleDb) (clock : Clock) (top : TopupTxInfo) where
  -- Whatever the database answers, `update_account_balance` returns an error only if it has written
  -- nothing.
  pub settle_atomic :
      (update_account_balance db clock top).err ≢ none
      → (update_account_balance db clock top).writes ≡ []
  unfolding update_account_balance
  settle_atomic h = ground arith

  -- A flow that is not pending is never processed: nothing is written, and an error is returned.
  pub settle_refused :
      (t : AccountBalanceFlow)
      → db.locked_flow top.main_id top.tx_hash ≡ Query.found t
      → t.status ≢ BalanceStatus.pending
      → ((update_account_balance db clock top).err ≢ none)
        × ((update_account_balance db clock top).writes ≡ [])
  unfolding update_account_balance
  settle_refused t e h = ground arith

  saved_not_pending :
      (t : AccountBalanceFlow)
      → Saves t (update_account_balance db clock top).writes
      → t.status ≢ BalanceStatus.pending
  unfolding update_account_balance
  saved_not_pending t h = ground arith

  -- If the user's balance row is found and the user's money on the platform and the amount fit in a
  -- uint64 together: a saved balance has grown by the amount after a recharge, has fallen by it
  -- after a withdrawal, and is the same after a freeze or an unfreeze, where available money and
  -- money on withdrawal are counted together. The frozen money stays as it was.
  pub settle_funds :
      (b b' : AccountBalance) (n : ℕ)
      → db.locked_balance top.main_id ≡ Query.found b
      → top.amount ≡ some n
      → n + b.available + b.withdrawal < u64_mod
      → saved_balance (update_account_balance db clock top).writes ≡ some b'
      → (b'.available + b'.withdrawal + (if top.op == BalanceOp.withdraw then n else 0)
          ≡ b.available + b.withdrawal + (if top.op == BalanceOp.recharge then n else 0))
        × (b'.frozen ≡ b.frozen)
  unfolding update_account_balance add64 sub64
  settle_funds b b' n eb en fits h = ground arith

  -- A transaction that was not successful on the chain changes no balance.
  pub settle_failed_balance :
      top.status ≢ "success" → saved_balance (update_account_balance db clock top).writes ≡ none
  unfolding update_account_balance
  settle_failed_balance h = ground (arith, eq_iff top.status "success")

  -- If the parser has left the amount `nil`, nothing is written, whatever the status of the
  -- transaction: its flow stays as it is.
  pub settle_no_amount : top.amount ≡ none → (update_account_balance db clock top).writes ≡ []
  unfolding update_account_balance
  settle_no_amount e = ground arith

  -- If every call succeeds and the user's balance row is found, a successful recharge with a known
  -- amount, of a flow that is pending, makes two rows durable: the flow as successful, and the
  -- balance with the amount, modulo 2 ^ 64 where it is read and where it is added, added to the
  -- available money.
  pub settle_recharge :
      (t : AccountBalanceFlow) (b : AccountBalance) (n : ℕ)
      → top.op ≡ BalanceOp.recharge
      → top.status ≡ "success"
      → top.amount ≡ some n
      → db.locked_flow top.main_id top.tx_hash ≡ Query.found t
      → t.status ≡ BalanceStatus.pending
      → db.locked_balance top.main_id ≡ Query.found b
      → ((f : AccountBalanceFlow) → db.save_flow f ≡ true)
      → ((c : AccountBalance) → db.save_balance c ≡ true)
      → db.commit ≡ true
      → (t' : AccountBalanceFlow) × (update_account_balance db clock top ≡ record {
        err = none;
        writes =
            Write.save_flow t'
            ∷ Write.save_balance
                (record b { available = add64 b.available (n % u64_mod); update_time = clock 3 })
            ∷ [];
      })
        × (t'.id ≡ t.id)
        × (t'.status ≡ BalanceStatus.success)
        × (t'.real_amount ≡ n % u64_mod)
  unfolding update_account_balance settled_target
  settle_recharge t b n eo es en et ep eb sf sb c =
      let m = n % u64_mod in
      let b' = record b { available = add64 b.available m; update_time = clock 3 } in
      (
        settled_target db clock top t m,
        ground (arith, eq_iff top.status "success", sf (settled_target db clock top t m), sb b'),
        refl,
        ground (arith, eq_iff top.status "success"),
        refl,
      )

-- What one run of `update_account_balance` has saved of a flow, another run refuses: whatever else
-- the database then answers and whatever the second transaction says, it writes nothing and returns
-- an error.
pub settle_once :
    (db db' : SettleDb) (clock clock' : Clock) (top top' : TopupTxInfo) (t : AccountBalanceFlow)
    → Saves t (update_account_balance db clock top).writes
    → db'.locked_flow top'.main_id top'.tx_hash ≡ Query.found t
    → ((update_account_balance db' clock' top').err ≢ none)
      × ((update_account_balance db' clock' top').writes ≡ [])
settle_once db db' clock clock' top top' t saved found =
    settle_refused db' clock' top' t found (saved_not_pending db clock top t saved)
