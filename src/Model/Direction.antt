-- ===== src/Model/Direction.antt =====
-- `Direction` of an account flow, model/flow.go.
use tradeverse_api.Prelude.{ℕ}

abbrev pub nowhere : ℕ
nowhere = 0

abbrev pub inward : ℕ
inward = 1

abbrev pub outward : ℕ
outward = 2
