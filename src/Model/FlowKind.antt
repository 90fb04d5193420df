-- ===== src/Model/FlowKind.antt =====
-- `BizType` of an account flow, model/flow.go.
use tradeverse_api.Prelude.{ℕ}

abbrev pub recharge : ℕ
recharge = 0

abbrev pub freeze : ℕ
freeze = 1

abbrev pub unfreeze : ℕ
unfreeze = 2

abbrev pub spend : ℕ
spend = 3

abbrev pub withdraw : ℕ
withdraw = 4

abbrev pub refund : ℕ
refund = 5
