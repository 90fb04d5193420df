-- ===== src/Chain/Pipeline.antt =====
-- The way of a transaction from the queue to the database: chain/evm_tx_q.go publishes what
-- chain/evm_tx_parse.go has read on a channel of 500, and a goroutine of main.go receives the updates
-- in order and hands each to `UpdateAccountBalance`. It goes on after an error, which is only logged;
-- the end of the program is left out.
use tradeverse_api.Prelude.{ℕ, ◌+◌, List, [], ◌∷◌, ◌++◌}
use tradeverse_api.Web.{Clock}
use tradeverse_api.Wallet.Calls.{Write, TopupTxInfo, QueuePassObject, SettleDb}
use tradeverse_api.Wallet.Settle.{update_account_balance}
use tradeverse_api.Chain.Client.{Client}
use tradeverse_api.Chain.Worker.{
  Outcome, put_off, ignored, lost, published, consume, publish_update,
}
pub mod Channel
pub mod Stuck
pub mod Credit
pub mod Tests

-- The channel after an object's turn.
unfoldable pub sent : Outcome → List TopupTxInfo → List TopupTxInfo
sent (published i) channel = publish_update i channel
sent (put_off t) channel = channel
sent ignored channel = channel
sent lost channel = channel

-- The durable writes of the goroutine, which receives what waits on the channel: the `k`-th update
-- meets the database `dbs k` at the time `clocks k`.
unfoldable pub drained : (ℕ → SettleDb) → (ℕ → Clock) → ℕ → List TopupTxInfo → List Write
drained dbs clocks k [] = []
drained dbs clocks k (i ∷ is) =
    (update_account_balance (dbs k) (clocks k) i).writes ++ drained dbs clocks (k + 1) is

-- The durable writes of one object's turn and of all that waited on the channel before it.
unfoldable pub processed :
    Client → (ℕ → SettleDb) → (ℕ → Clock) → List TopupTxInfo → QueuePassObject → List Write
processed client dbs clocks channel o = drained dbs clocks 0 (sent (consume client o) channel)
