-- ===== src/Model/BalanceOp.antt =====
-- `Op` of an account balance flow, model/flow.go.
use tradeverse_api.Prelude.{ℕ}

abbrev pub recharge : ℕ
recharge = 0

abbrev pub freeze : ℕ
freeze = 1

abbrev pub withdraw : ℕ
withdraw = 2

abbrev pub unfreeze : ℕ
unfreeze = 3
