-- ===== src/Chain/Recheck/Laws.antt =====
-- What `checkTx` queues.
use tradeverse_api.Prelude.{ℕ, String, [], ◌∷◌, ◌≡◌, ◌⊎◌, Option, arith}
use tradeverse_api.Model.BalanceOp
use tradeverse_api.Model.Flow.{AccountBalanceFlow}
use tradeverse_api.Wallet.Calls.{QueuePassObject}
use tradeverse_api.Chain.Recheck.{requeue}

pub requeue_ref :
    (parse_uint : String → Option ℕ) (f : AccountBalanceFlow) (o : QueuePassObject)
    → (f.op ≡ BalanceOp.withdraw) ⊎ (f.op ≡ BalanceOp.unfreeze)
    → requeue parse_uint f ≡ o ∷ []
    → (o.op ≡ f.op) × (o.ref_flow_id ≡ f.ref_flow_id)
unfolding requeue
requeue_ref parse_uint f o ops e = ground arith
