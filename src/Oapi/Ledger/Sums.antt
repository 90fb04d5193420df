-- ===== src/Oapi/Ledger/Sums.antt =====
-- Sums over the flows under a replaced row.
use tradeverse_api.Prelude.{ℕ, ◌+◌, ◌≡◌, List, [], ◌∷◌, some, arith}
use tradeverse_api.Model.Flow.{AccountFlow}
use tradeverse_api.Oapi.Ledger.{find, replace, total}

pub total-replace :
    (w : AccountFlow → ℕ) (g old : AccountFlow) (fs : List AccountFlow)
    → find g.id fs ≡ some old
    → total w (replace g fs) + w old ≡ total w fs + w g
total-replace w g old [] h = ground arith
total-replace w g old (f ∷ fs) h = ground (arith, total-replace w g old fs)
