-- ===== src/Chain/Pipeline/Stuck.antt =====
-- Claims and cancels that chain/evm_tx_q.go reports and service/account_balance.go refuses.
use tradeverse_api.Prelude.{
  ℕ, String, List, length, [], ◌∷◌, ◌≡◌, ◌⊎◌, ap, ◌∙◌, Option, some, arith,
}
use tradeverse_api.Web.{Clock}
use tradeverse_api.Orm.{Query}
use tradeverse_api.Model.BalanceOp
use tradeverse_api.Model.Flow.{AccountBalanceFlow}
use tradeverse_api.Wallet.Calls.{TopupTxInfo, QueuePassObject, SettleDb}
use tradeverse_api.Wallet.Settle.{update_account_balance}
use tradeverse_api.Wallet.Settle.Laws.{settle_no_amount}
use tradeverse_api.Chain.Client.{Receipt, Client}
use tradeverse_api.Chain.Worker.Laws.{consume-Reports, consume_unlogged}
use tradeverse_api.Chain.Recheck.{requeue}
use tradeverse_api.Chain.Recheck.Laws.{requeue_ref}
use tradeverse_api.Chain.Pipeline.{drained, processed}
use tradeverse_api.Chain.Pipeline.Channel.{processed_stuck}

-- What a lock's own flow is taken for: the flow of a claim, which refers to a lock.
lock_unfound :
    (db : SettleDb) (clock : Clock) (i : TopupTxInfo) (lock : AccountBalanceFlow)
    → (i.op ≡ BalanceOp.withdraw) ⊎ (i.op ≡ BalanceOp.unfreeze)
    → db.flow i.ref_flow_id ≡ Query.found lock
    → lock.ref_flow_id ≡ 0
    → db.flow 0 ≡ Query.not_found
    → (update_account_balance db clock i).writes ≡ []
unfolding update_account_balance
lock_unfound db clock i lock ops found zero none0 = ground arith

-- What `check_tx` queues for a claim or a cancel that is pending never settles it: if the flow
-- refers to a lock, the lock to no flow, and no flow has the id 0, the turn adds no write to those of
-- the updates that wait on the channel, whatever the chain answers.
pub requeued_stuck :
    (client : Client) (dbs : ℕ → SettleDb) (clocks : ℕ → Clock) (channel : List TopupTxInfo)
    (parse_uint : String → Option ℕ) (f lock : AccountBalanceFlow) (o : QueuePassObject)
    → (f.op ≡ BalanceOp.withdraw) ⊎ (f.op ≡ BalanceOp.unfreeze)
    → (dbs (length channel)).flow f.ref_flow_id ≡ Query.found lock
    → lock.ref_flow_id ≡ 0
    → (dbs (length channel)).flow 0 ≡ Query.not_found
    → requeue parse_uint f ≡ o ∷ []
    → processed client dbs clocks channel o ≡ drained dbs clocks 0 channel
requeued_stuck client dbs clocks channel parse_uint f lock o ops found zero none0 e =
    let db = dbs (length channel) in
    processed_stuck dbs clocks client channel o (λ i ei.
      let same = consume-Reports client o i ei in
      let ref = requeue_ref parse_uint f o ops e in
      lock_unfound db (clocks (length channel)) i lock (ground (arith, same, ref))
        (ap (λ n. db.flow n) (same.1 ∙ ref.1) ∙ found) zero none0)

-- A claim or a cancel whose receipt is there and has no logs, as that of a transaction that was
-- reverted, adds no write, whatever the rest of the receipt says: its flow is not marked as
-- failed.
pub unlogged_stuck :
    (client : Client) (dbs : ℕ → SettleDb) (clocks : ℕ → Clock) (channel : List TopupTxInfo)
    (o : QueuePassObject) (r : Receipt)
    → (o.op ≡ BalanceOp.withdraw) ⊎ (o.op ≡ BalanceOp.unfreeze)
    → client.transaction_receipt o.tx_hash ≡ some r
    → r.logs ≡ []
    → processed client dbs clocks channel o ≡ drained dbs clocks 0 channel
unlogged_stuck client dbs clocks channel o r ops er el =
    let k = length channel in
    processed_stuck dbs clocks client channel o
      (λ i ei. settle_no_amount (dbs k) (clocks k) i (consume_unlogged client o r i ops er el ei))
