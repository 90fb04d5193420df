-- ===== src/Funds/Unchecked.antt =====
-- `UnFreezeHandler` and `SpendHandler` of api/oauth/jwt_middleware.go on a flow that is only known
-- to
-- be pending.
use tradeverse_api.Prelude.{
  ℕ, ◌+◌, ◌-◌, ◌<◌, String, true, ◌≡◌, ◌≢◌, Option, none, some, List, [], ◌∷◌, arith,
}
use tradeverse_api.Prelude.Words.{u64_mod, add64, sub64}
use tradeverse_api.Web.{Clock}
use tradeverse_api.Orm.{Query, Created}
use tradeverse_api.Model.FlowKind
use tradeverse_api.Model.FlowStatus
use tradeverse_api.Model.Flow.{AccountFlow, AccountBalance}
use tradeverse_api.Model.User.{UserMain}
use tradeverse_api.Oapi.Calls.{Write, Outcome}
use tradeverse_api.Funds.{FundsDb, settling_row, unfreeze, spend}

-- The balance row that the writes save.
saved_row : {Decimal : Type 0} → List (Write Decimal) → Option AccountBalance
saved_row [] = none
saved_row (Write.save_balance b ∷ ws) = some b
saved_row (_ ∷ ws) = saved_row ws

pub saved_balance : {Decimal : Type 0} → Outcome Decimal → Option AccountBalance
unfolding saved_row
saved_balance o = saved_row o.writes

-- A database that finds the caller, the caller's balance row and the flow, and stores every row.
pub record Answers (db : FundsDb) (user_id : String) (user : UserMain) (b : AccountBalance)
    (f : AccountFlow) : Type 0 where
  pub user_found : db.user_main user_id ≡ Query.found user
  pub balance_found : db.account_balance user_id 0 ≡ Query.found b
  pub flow_found : db.account_flow f.id ≡ Query.found f
  pub user_known : user.id ≢ 0
  pub flow_known : f.id ≢ 0
  pub flow_saved : (g : AccountFlow) → db.save_flow g ≡ true
  pub key : ℕ
  pub flow_inserted : (g : AccountFlow) → db.insert_flow g ≡ Created.created key
  pub balance_saved : (c : AccountBalance) → db.save_balance c ≡ true
  pub committed : db.commit ≡ true

module _ (Decimal : Type 0) (db : FundsDb) (clock : Clock) (client_id user_id : String)
    (user : UserMain) (b : AccountBalance) (f : AccountFlow) (a : Answers db user_id user b f)
    (is_open : f.status ≡ FlowStatus.pending) where
  -- With a database that answers every call, `unfreeze` of any pending flow, whoever owns it and
  -- whatever its type, adds its amount to the caller's available money and takes it from the
  -- caller's frozen money, both modulo 2 ^ 64.
  pub unfreeze_unchecked :
      saved_balance (
        unfreeze {Decimal = Decimal} db clock client_id user_id
          (some (record { freeze_id = f.id })))
      ≡ some (record b { frozen = sub64 b.frozen f.amount; available = add64 b.available f.amount })
  unfolding unfreeze saved_balance
  unfreeze_unchecked = ground (
    arith,
    a.flow_saved (record f { status = FlowStatus.reversed; update_time = clock 1 }),
    a.flow_inserted (settling_row clock FlowKind.unfreeze client_id user f),
    a.balance_saved
        (record b { frozen = sub64 b.frozen f.amount; available = add64 b.available f.amount }),
  )

  -- With a database that answers every call, `spend` of a pending flow with a larger amount than
  -- the
  -- caller has frozen leaves the caller with a frozen amount that has wrapped round below zero.
  pub spend_wraps :
      b.frozen < f.amount
      → f.amount < u64_mod
      → saved_balance (
          spend {Decimal = Decimal} db clock client_id user_id (some (record { freeze_id = f.id })))
        ≡ some (record b { frozen = b.frozen + u64_mod - f.amount })
  unfolding spend saved_balance sub64
  spend_wraps less fits = ground (
    arith,
    a.flow_saved (record f { status = FlowStatus.done; update_time = clock 1 }),
    a.flow_inserted (settling_row clock FlowKind.spend client_id user f),
    a.balance_saved (record b { frozen = sub64 b.frozen f.amount }),
  )
