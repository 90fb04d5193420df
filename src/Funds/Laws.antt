-- ===== src/Funds/Laws.antt =====
-- What the advanced money handlers write, and what they leave unchecked.
use tradeverse_api.Prelude.{
  ◌+◌, ◌<◌, String, Bool, ◌≡◌, ◌≢◌, refl, inl, inr, Option, some, [], ◌∷◌, arith,
}
use tradeverse_api.Prelude.Words.{u64_mod, add64, sub64}
use tradeverse_api.Web.{Clock}
use tradeverse_api.Orm.{Query, Created-cases}
use tradeverse_api.Model.FlowStatus
use tradeverse_api.Model.Flow.{AccountFlow, AccountBalance}
use tradeverse_api.Model.User.{UserMain}
use tradeverse_api.Oapi.Calls.{Write}
use tradeverse_api.Funds.{
  FundsDb, FreezeReq, SpendOrUnfreezeReq, freeze_row, freeze, unfreeze, spend,
}

module _ (Decimal : Type 0) (db : FundsDb) (clock : Clock) (client_id user_id : String) where
  -- `freeze`, `unfreeze` and `spend` answer alike whether or not their commit succeeds.
  pub commit_unreported :
      (committed : Bool) (b : Option FreezeReq) (r : Option SpendOrUnfreezeReq)
      → let db' = record db { commit = committed } in
        ((freeze {Decimal = Decimal} db' clock client_id user_id b).response
          ≡ (freeze {Decimal = Decimal} db clock client_id user_id b).response)
        × ((unfreeze {Decimal = Decimal} db' clock client_id user_id r).response
            ≡ (unfreeze {Decimal = Decimal} db clock client_id user_id r).response)
        × ((spend {Decimal = Decimal} db' clock client_id user_id r).response
            ≡ (spend {Decimal = Decimal} db clock client_id user_id r).response)
  unfolding freeze unfreeze spend
  commit_unreported committed b r = (ground arith, ground arith, ground arith)

  -- If the caller and the caller's balance row are found and its available and frozen money
  -- together fit in a uint64: a freeze that writes anything writes two rows, a pending freeze of
  -- the caller over the requested amount, and the balance with that amount moved from available to
  -- frozen.
  pub freeze_moves :
      (req : FreezeReq) (user : UserMain) (b : AccountBalance)
      → db.user_main user_id ≡ Query.found user
      → db.account_balance user_id 0 ≡ Query.found b
      → b.available + b.frozen < u64_mod
      → (freeze {Decimal = Decimal} db clock client_id user_id (some req)).writes ≢ []
      → (f : AccountFlow) × (b' : AccountBalance) × ((freeze {Decimal = Decimal} db clock client_id
            user_id
            (some req)).writes
          ≡ Write.create_flow f ∷ Write.save_balance b' ∷ [])
        × (f.amount ≡ req.amount)
        × (f.main_id ≡ user.id)
        × (f.status ≡ FlowStatus.pending)
        × (b'.available + req.amount ≡ b.available)
        × (b'.frozen ≡ b.frozen + req.amount)
  unfolding freeze freeze_row add64 sub64
  freeze_moves req user b eu eb fits durable =
      let f = freeze_row clock client_id user req in
      elim (Created-cases (db.insert_flow f)) [
        | inr lost ↦ absurd (durable (ground arith))
        | inl (n, ei) ↦ (
          record f { id = n },
          record b { available = sub64 b.available req.amount; frozen = add64 b.frozen req.amount },
          ground arith,
          refl,
          refl,
          refl,
          ground arith,
          ground arith,
        )
      ]
