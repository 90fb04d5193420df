-- ===== src/Chain/Worker.antt =====
-- The consumer of the chain queue, chain/evm_tx_q.go. What it does with an object is a value: the
-- queue is RichQueue, where an object that is put off comes back after a delay.
use tradeverse_api.Prelude.{
  ℕ, String, ◌*◌, List, [], ◌∷◌, ◌++◌, ◌==◌, ltb, str_eq, if◌then◌else◌, Option, none, some, length,
}
use tradeverse_api.Web.{Time, second}
use tradeverse_api.Model.BalanceOp
use tradeverse_api.Wallet.Calls.{TopupTxInfo, QueuePassObject}
use tradeverse_api.Chain.Client.{Client}
use tradeverse_api.Chain.Parse.{Parsed, info, error, panicked, parse_topup_tx, parse_open_lock_tx}
use tradeverse_api.Chain.Parse.Locks.{parse_claim_locked_tx, parse_cancel_locked_tx}
pub mod Laws

pub data Outcome : Type 0 where
  -- `EnqueueWithDelay`
  put_off : Time → Outcome
  -- an operation that no parser is for
  ignored : Outcome
  -- a panic, which the queue's worker recovers from
  lost : Outcome
  published : TopupTxInfo → Outcome

-- What the parser's answer leads to.
settle_parsed : QueuePassObject → Parsed → Outcome
settle_parsed o error = put_off (10 * second)
settle_parsed o panicked = lost
settle_parsed o (info i) =
    if str_eq i.status "pending"
    then put_off (5 * second)
    else published (record i {
      main_id = o.main_id;
      ref_flow_id = o.ref_flow_id;
      op = o.op;
      chain_id = o.chain_id;
    })

pub consume : Client → QueuePassObject → Outcome
unfolding settle_parsed
consume client o =
    if o.op == BalanceOp.recharge
    then settle_parsed o (parse_topup_tx client o.chain_id o.tx_hash)
    else if o.op == BalanceOp.freeze
    then settle_parsed o (parse_open_lock_tx client o.chain_id o.tx_hash)
    else if o.op == BalanceOp.withdraw
    then settle_parsed o (parse_claim_locked_tx client o.chain_id o.tx_hash)
    else if o.op == BalanceOp.unfreeze
    then settle_parsed o (parse_cancel_locked_tx client o.chain_id o.tx_hash)
    else ignored

-- `topupHashChannel`, a channel of 500: an update that does not fit is dropped.
abbrev pub publish_update : TopupTxInfo → List TopupTxInfo → List TopupTxInfo
publish_update i channel = if ltb (length channel) 500 then channel ++ (i ∷ []) else channel
