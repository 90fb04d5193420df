-- ===== src/Chain/Worker/Laws.antt =====
-- What the consumer of the chain queue publishes.
use tradeverse_api.Prelude.{
  Bool, true, false, if◌then◌else◌, none, ◌==◌, ◌≡◌, ◌≢◌, ◌⊎◌, some, [], arith, eq_iff, subst, refl,
}
use tradeverse_api.Model.BalanceOp
use tradeverse_api.Wallet.Calls.{TopupTxInfo, QueuePassObject}
use tradeverse_api.Chain.Client.{Client, Receipt}
use tradeverse_api.Chain.Parse.{Parsed, info, error, panicked, parse_topup_tx}
use tradeverse_api.Chain.Parse.Laws.{
  mined_status, Honest, parse_topup_tx-Honest, parse_open_lock_tx-Honest,
}
use tradeverse_api.Chain.Parse.Locks.{parse_claim_locked_tx, parse_cancel_locked_tx}
use tradeverse_api.Chain.Parse.Locks.Laws.{
  parse_claim_locked_tx-Honest, parse_cancel_locked_tx-Honest, NoAmount, claim_unlogged,
  cancel_unlogged,
}
use tradeverse_api.Chain.Worker.{Outcome, published, settle_parsed, consume}

-- An update for an object: the object's own fields, and the status of a receipt that is there.
abbrev pub Reports : Client → QueuePassObject → TopupTxInfo → Type 0
Reports client o i =
    (i.main_id ≡ o.main_id)
    × (i.ref_flow_id ≡ o.ref_flow_id)
    × (i.op ≡ o.op)
    × (i.chain_id ≡ o.chain_id)
    × (i.tx_hash ≡ o.tx_hash)
    × (client.transaction_receipt o.tx_hash ≢ none)
    × (i.status ≡ mined_status (client.transaction_receipt o.tx_hash))

abbrev Reported : Client → QueuePassObject → Outcome → Type 0
Reported client o (published i) = Reports client o i
Reported client o _ = Unit

settle_parsed-Reported :
    (client : Client) (o : QueuePassObject) (p : Parsed)
    → Honest client o.tx_hash p
    → Reported client o (settle_parsed o p)
unfolding settle_parsed
settle_parsed-Reported client o error h = tt
settle_parsed-Reported client o panicked h = tt
settle_parsed-Reported client o (info i) h = ground (arith, eq_iff i.status "pending")

if_all : {A : Type 0} (P : A → Type 0) (c : Bool) (a b : A) → P a → P b → P (if c then a else b)
if_all P true a b p q = p
if_all P false a b p q = q

consume-Reported : (client : Client) (o : QueuePassObject) → Reported client o (consume client o)
unfolding consume
consume-Reported client o =
    if_all (Reported client o) (o.op == BalanceOp.recharge) _ _
      (settle_parsed-Reported client o _ (parse_topup_tx-Honest client o.chain_id o.tx_hash))
      (if_all (Reported client o) (o.op == BalanceOp.freeze) _ _
        (settle_parsed-Reported client o _ (parse_open_lock_tx-Honest client o.chain_id o.tx_hash))
        (if_all (Reported client o) (o.op == BalanceOp.withdraw) _ _
          (settle_parsed-Reported client o _
            (parse_claim_locked_tx-Honest client o.chain_id o.tx_hash))
          (if_all (Reported client o) (o.op == BalanceOp.unfreeze) _ _
            (settle_parsed-Reported client o _
              (parse_cancel_locked_tx-Honest client o.chain_id o.tx_hash))
            tt)))

-- Whatever the chain answers, an update that the consumer publishes carries the user, the flow, the
-- operation, the chain and the hash of the object that was queued, the transaction's receipt was
-- there, and the update's status is "success" if and only if the receipt's status is 1.
pub consume-Reports :
    (client : Client) (o : QueuePassObject) (i : TopupTxInfo)
    → consume client o ≡ published i
    → Reports client o i
consume-Reports client o i e = subst (Reported client o) e (consume-Reported client o)

abbrev Unpriced : Outcome → Type 0
Unpriced (published i) = i.amount ≡ none
Unpriced _ = Unit

settle_parsed-Unpriced :
    (o : QueuePassObject) (p : Parsed) → NoAmount p → Unpriced (settle_parsed o p)
unfolding settle_parsed
settle_parsed-Unpriced o error h = tt
settle_parsed-Unpriced o panicked h = tt
settle_parsed-Unpriced o (info i) h = ground arith

pub consume_unlogged :
    (client : Client) (o : QueuePassObject) (r : Receipt) (i : TopupTxInfo)
    → (o.op ≡ BalanceOp.withdraw) ⊎ (o.op ≡ BalanceOp.unfreeze)
    → client.transaction_receipt o.tx_hash ≡ some r
    → r.logs ≡ []
    → consume client o ≡ published i
    → i.amount ≡ none
unfolding consume
consume_unlogged client o r i ops er el e = ground (
  arith,
  settle_parsed-Unpriced o (parse_claim_locked_tx client o.chain_id o.tx_hash)
      (claim_unlogged client o.chain_id o.tx_hash r er el),
  settle_parsed-Unpriced o (parse_cancel_locked_tx client o.chain_id o.tx_hash)
      (cancel_unlogged client o.chain_id o.tx_hash r er el),
)

-- What is read of a recharge is published with the object's fields.
pub consume_credits :
    (client : Client) (o : QueuePassObject) (j : TopupTxInfo)
    → o.op ≡ BalanceOp.recharge
    → parse_topup_tx client o.chain_id o.tx_hash ≡ info j
    → j.status ≡ "success"
    → (i : TopupTxInfo) × (consume client o ≡ published i)
      × (i.amount ≡ j.amount)
      × (i.status ≡ "success")
unfolding consume settle_parsed
consume_credits client o j eo ej es = (
  record j { main_id = o.main_id; ref_flow_id = o.ref_flow_id; op = o.op; chain_id = o.chain_id },
  ground (arith, eq_iff j.status "pending", eq_iff "success" "pending"),
  refl,
  es,
)
