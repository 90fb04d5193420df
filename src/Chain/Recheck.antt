-- ===== src/Chain/Recheck.antt =====
-- `checkTx`, main.go: the flows that are pending are queued for the chain again.
use tradeverse_api.Prelude.{
  ℕ, String, len, List, [], ◌∷◌, ◌++◌, ◌==◌, ◌||◌, if◌then◌else◌, Option, none, some, take,
}
use tradeverse_api.Model.BalanceOp
use tradeverse_api.Model.Flow.{AccountBalanceFlow}
use tradeverse_api.Wallet.Calls.{QueuePassObject}
pub mod Laws

-- `strconv.ParseUint(s, 10, 64)`; `none` is an error.
module _ (parse_uint : String → Option ℕ) where
  queue_flow : AccountBalanceFlow → ℕ → ℕ → QueuePassObject
  queue_flow f chain_id ref_flow_id = record {
    chain_id = chain_id;
    tx_hash = f.tx_hash;
    main_id = f.main_id;
    ref_flow_id = ref_flow_id;
    op = f.op;
  }

  requeue_op : AccountBalanceFlow → ℕ → List QueuePassObject
  unfolding queue_flow
  requeue_op f chain_id =
      if f.op == BalanceOp.recharge || f.op == BalanceOp.freeze
      then queue_flow f chain_id f.id ∷ []
      else if f.op == BalanceOp.withdraw || f.op == BalanceOp.unfreeze
      then queue_flow f chain_id f.ref_flow_id ∷ []
      else []

  unfoldable pub requeue : AccountBalanceFlow → List QueuePassObject
  unfolding requeue_op
  requeue f = elim (parse_uint f.chain_id) [
    | none ↦ []
    | some chain_id ↦ if len f.tx_hash == 0 then [] else requeue_op f chain_id
  ]

  -- `Limit(100)` of the flows that are pending, in the order that the database answers.
  requeue_all : List AccountBalanceFlow → List QueuePassObject
  unfolding requeue
  requeue_all [] = []
  requeue_all (f ∷ fs) = requeue f ++ requeue_all fs

  pub check_tx : List AccountBalanceFlow → List QueuePassObject
  unfolding requeue_all
  check_tx pending_flows = requeue_all (take 100 pending_flows)
