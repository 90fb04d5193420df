-- ===== src/Chain/Pipeline/Credit.antt =====
-- A deposit on its way from the queue to the user's balance.
use tradeverse_api.Prelude.{ℕ, ◌%◌, ◌<◌, true, List, length, [], ◌∷◌, ◌++◌, ◌≡◌, ap, ◌∙◌}
use tradeverse_api.Prelude.Words.{u64_mod, add64}
use tradeverse_api.Web.{Clock}
use tradeverse_api.Orm.{Query}
use tradeverse_api.Model.BalanceOp
use tradeverse_api.Model.BalanceStatus
use tradeverse_api.Model.Flow.{AccountBalance, AccountBalanceFlow}
use tradeverse_api.Wallet.Calls.{Write, TopupTxInfo, QueuePassObject, SettleDb}
use tradeverse_api.Wallet.Settle.Laws.{settle_recharge}
use tradeverse_api.Chain.Client.{Log, Receipt, Client}
use tradeverse_api.Chain.Parse.Deposits.{Deposited, parse_deposited}
use tradeverse_api.Chain.Worker.Laws.{consume-Reports, consume_credits}
use tradeverse_api.Chain.Pipeline.{drained, processed}
use tradeverse_api.Chain.Pipeline.Channel.{processed_published}

-- The flow `t` of the object is pending, the user's balance row is `b`, and every row can be stored.
pub record CanSettle (db : SettleDb) (o : QueuePassObject) (t : AccountBalanceFlow)
    (b : AccountBalance) : Type 0 where
  pub flow_found : db.locked_flow o.main_id o.tx_hash ≡ Query.found t
  pub flow_pending : t.status ≡ BalanceStatus.pending
  pub balance_found : db.locked_balance o.main_id ≡ Query.found b
  pub flow_saved : (f : AccountBalanceFlow) → db.save_flow f ≡ true
  pub balance_saved : (c : AccountBalance) → db.save_balance c ≡ true
  pub committed : db.commit ≡ true

module _ (client : Client) (dbs : ℕ → SettleDb) (clocks : ℕ → Clock) (channel : List TopupTxInfo)
    (o : QueuePassObject) (r : Receipt) (log : Log) (n : ℕ) (t : AccountBalanceFlow)
    (b : AccountBalance) where
  -- If a recharge is queued whose transaction has succeeded on the chain, fewer than 500 updates wait
  -- on the channel, and, once those are received, its flow is pending, the user's balance row is found
  -- and every row can be stored: after the writes of the updates that wait, one turn of the consumer
  -- makes two rows durable, the flow as successful, and the balance with the amount of the first
  -- "Deposited" log, modulo 2 ^ 64 where it is read and where it is added, added to the available
  -- money. Nothing is asked of the contract that has emitted the log.
  pub deposit_credited :
      o.op ≡ BalanceOp.recharge
      → Deposited client o.chain_id o.tx_hash r log n
      → length channel < 500
      → CanSettle (dbs (length channel)) o t b
      → (t' : AccountBalanceFlow) × (processed client dbs clocks channel o
          ≡ drained dbs clocks 0 channel
            ++ (Write.save_flow t'
                ∷ Write.save_balance (record b {
                  available = add64 b.available (n % u64_mod);
                  update_time = clocks (length channel) 3;
                })
                ∷ []))
        × (t'.id ≡ t.id)
        × (t'.status ≡ BalanceStatus.success)
        × (t'.real_amount ≡ n % u64_mod)
  deposit_credited eo d room can =
      let db = dbs (length channel) in
      let p = parse_deposited client o.chain_id o.tx_hash r log n d in
      let c = consume_credits client o p.0 eo p.1 p.3 in
      let i = c.0 in
      let same = consume-Reports client o i c.1 in
      let s =
        settle_recharge db (clocks (length channel)) i t b n (same.2 ∙ eo) c.3 (c.2 ∙ p.2)
          (ap (λ u. db.locked_flow u i.tx_hash) same.0
            ∙ (ap (λ x. db.locked_flow o.main_id x) same.4 ∙ can.flow_found))
          can.flow_pending (ap (λ u. db.locked_balance u) same.0 ∙ can.balance_found) can.flow_saved
          can.balance_saved can.committed in
      let sent = processed_published dbs clocks client channel o i room c.1 in
      (s.0, sent ∙ ap (λ x. drained dbs clocks 0 channel ++ x.writes) s.1, s.2, s.3, s.4)
