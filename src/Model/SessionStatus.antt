-- ===== src/Model/SessionStatus.antt =====
-- `Status` of a game session, model/game.go.
use tradeverse_api.Prelude.{ℕ}

abbrev pub start : ℕ
start = 1

abbrev pub ended : ℕ
ended = 2

abbrev pub reversed : ℕ
reversed = 3

abbrev pub settled : ℕ
settled = 4

abbrev pub auditing : ℕ
auditing = 5
