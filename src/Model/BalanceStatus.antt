-- ===== src/Model/BalanceStatus.antt =====
-- `Status` of an account balance flow, model/flow.go.
use tradeverse_api.Prelude.{ℕ}

abbrev pub pending : ℕ
pending = 0

abbrev pub success : ℕ
success = 1

abbrev pub failed : ℕ
failed = 2

abbrev pub canceled : ℕ
canceled = 3

abbrev pub pending_with_draw : ℕ
pending_with_draw = 4
