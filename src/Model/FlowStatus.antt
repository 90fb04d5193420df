-- ===== src/Model/FlowStatus.antt =====
-- `Status` of an account flow, model/flow.go.
use tradeverse_api.Prelude.{ℕ}

abbrev pub pending : ℕ
pending = 0

abbrev pub done : ℕ
done = 1

abbrev pub failed : ℕ
failed = 2

abbrev pub reversed : ℕ
reversed = 3
