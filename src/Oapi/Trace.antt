-- ===== src/Oapi/Trace.antt =====
-- Any number of plays, one after the other: each run of `game_start` or `game_end` sees the rows
-- that the runs before it have left, and may still fail at any call.
use tradeverse_api.Prelude.{ℕ, ◌+◌, ◌≡◌, refl, String, Option, arith}
use tradeverse_api.Web.{Clock}
use tradeverse_api.Oapi.Calls.{GameDb}
use tradeverse_api.Oapi.GameStart.{GameStartReq, game_start}
use tradeverse_api.Oapi.GameStart.Laws.{game_start-IsBacked}
use tradeverse_api.Oapi.GameEnd.{GameEndReq, game_end}
use tradeverse_api.Oapi.GameEnd.Laws.{game_end-IsBacked}
use tradeverse_api.Oapi.Ledger.{Ledger, Reads, IsBacked, apply_all, funds_of, spent}

module _ (Decimal : Type 0) where
  pub data Step (l : Ledger) : Ledger → Type 0 where
    start :
        (db : GameDb Decimal) (clock : Clock) (client_id user_id : String)
        (body : Option GameStartReq)
        → Reads db l
        → Step l (apply_all (game_start db clock client_id user_id body).writes l)
    finish :
        (db : GameDb Decimal) (clock : Clock) (client_id user_id : String)
        (body : Option (GameEndReq Decimal))
        → Reads db l
        → Step l (apply_all (game_end db clock client_id user_id body).writes l)

  pub data Plays (l : Ledger) : Ledger → Type 0 where
    here : Plays l l
    then : {m n : Ledger} → Plays l m → Step m n → Plays l n

  Step-IsBacked :
      {l m : Ledger}
      → Step l m
      → IsBacked l
      → IsBacked m
        × ((u : ℕ)
            → funds_of (m.balance u) + spent u m.flows ≡ funds_of (l.balance u) + spent u l.flows)
  Step-IsBacked {l = l} (start db clock c i body r) h =
      let (backed, same) = game_start-IsBacked db clock l r h c i body in
      (backed, λ u. omega (arith, same u))
  Step-IsBacked {l = l} (finish db clock c i body r) h = game_end-IsBacked db clock l r h c i body

  -- Over any sequence of runs of `game_start` and `game_end` whose reads return the rows of the
  -- ledger, starting from a ledger in which every user's frozen money is the sum of the user's
  -- pending freezes and every user's funds fit in a uint64: that stays so, and each user's funds
  -- and spends together stay the same.
  pub Plays-IsBacked :
      {l m : Ledger}
      → Plays l m
      → IsBacked l
      → IsBacked m
        × ((u : ℕ)
            → funds_of (m.balance u) + spent u m.flows ≡ funds_of (l.balance u) + spent u l.flows)
  Plays-IsBacked here h = (h, λ u. refl)
  Plays-IsBacked (then p s) h =
      let (before, sum) = Plays-IsBacked p h in
      let (after, same) = Step-IsBacked s before in (after, λ u. omega (arith, sum u, same u))
