-- ===== src/Funds.antt =====
-- The advanced money handlers of api/oauth/jwt_middleware.go: `FreezeHandler`, `UnFreezeHandler`
-- and
-- `SpendHandler`. They read the balance without a lock and outside the transaction, and answer with
-- success whether or not the commit succeeds; the writes are durable only if it does.
use tradeverse_api.Prelude.{
  ℕ, String, len, Bool, true, false, not, ◌||◌, List, [], ◌∷◌, ltb, ◌==◌, if◌then◌else◌, Option,
  none, some, Exit, next, exit, ◌>>=◌, ◌>>◌, return_if, answer,
}
use tradeverse_api.Prelude.Words.{add64, sub64}
use tradeverse_api.Codes
use tradeverse_api.Web.{Clock, Payload, success}
use tradeverse_api.Orm.{Query, Created, Saved, loaded}
use tradeverse_api.Model.FlowKind
use tradeverse_api.Model.FlowStatus
use tradeverse_api.Model.Flow.{AccountFlow, AccountBalance, no_flow, no_balance}
use tradeverse_api.Model.User.{UserMain, no_user}
use tradeverse_api.Oapi.Calls.{Write, Outcome, refuse}
pub mod Laws
pub mod Unchecked
mod Tests

pub record FundsDb : Type 0 where
  -- id = ?
  pub user_main : String → Query UserMain
  -- main_id = ? and asset_id = ?
  pub account_balance : String → ℕ → Query AccountBalance
  -- id = ?
  pub account_flow : ℕ → Query AccountFlow
  -- `Save` of a row with no primary key inserts it
  pub insert_flow : AccountFlow → Created
  pub save_flow : AccountFlow → Saved
  -- `Save` of a balance that was not found inserts it
  pub save_balance : AccountBalance → Saved
  pub commit : Saved

pub record FreezeReq : Type 0 where
  pub amount : ℕ
  pub external_id : String
  pub remark : String

pub record SpendOrUnfreezeReq : Type 0 where
  pub freeze_id : ℕ

freeze_row : Clock → String → UserMain → FreezeReq → AccountFlow
freeze_row clock client_id user req = record no_flow {
  main_id = user.id;
  biz_type = FlowKind.freeze;
  amount = req.amount;
  direction = 1;
  external_id = req.external_id;
  external_remark = req.remark;
  status = FlowStatus.pending;
  add_time = clock 1;
  update_time = clock 2;
  client_id = client_id;
}

-- The row that settles a freeze, by an unfreeze or by a spend.
settling_row : Clock → ℕ → String → UserMain → AccountFlow → AccountFlow
settling_row clock kind client_id user f = record no_flow {
  main_id = user.id;
  biz_type = kind;
  amount = f.amount;
  direction = 0;
  ref_flow_id = f.id;
  status = FlowStatus.done;
  add_time = clock 2;
  update_time = clock 3;
  client_id = client_id;
}

module _ {Decimal : Type 0} (db : FundsDb) (clock : Clock) where
  freeze_request : Option FreezeReq → Exit (Outcome Decimal) FreezeReq
  freeze_request none = exit (refuse clock Codes.bad_params "invalid param")
  freeze_request (some req) = do
    return_if (req.amount == 0 || len req.external_id == 0)
        (refuse clock Codes.bad_params "invalid param")
    return_if (ltb 128 (len req.external_id)) (refuse clock Codes.bad_params "external_id too long")
    return_if (ltb 128 (len req.remark)) (refuse clock Codes.bad_params "remark too long")
    next req

  inserted : String → Created → Exit (Outcome Decimal) ℕ
  inserted msg (Created.created id) = next id
  inserted msg Created.duplicate = exit (refuse clock Codes.unknown msg)
  inserted msg Created.refused = exit (refuse clock Codes.unknown msg)

  unfoldable pub freeze : String → String → Option FreezeReq → Outcome Decimal
  unfolding freeze_request inserted freeze_row
  freeze client_id user_id body = answer do
    req ← freeze_request body
    let user = loaded no_user (db.user_main user_id)
    return_if (user.id == 0) (refuse clock Codes.obj_not_found "user not found")
    let b = loaded no_balance (db.account_balance user_id 0)
    return_if (ltb b.available req.amount) (refuse clock Codes.bad_params "insufficient balance")
    let f = freeze_row clock client_id user req
    id ← inserted "freeze operation failed" (db.insert_flow f)
    let b' = record b {
      available = sub64 b.available req.amount;
      frozen = add64 b.frozen req.amount;
    }
    return_if (not (db.save_balance b')) (refuse clock Codes.unknown "freeze operation failed")
    next (record {
      response = success clock (Payload.operation id "freeze");
      writes =
          if db.commit
          then Write.create_flow (record f { id = id }) ∷ Write.save_balance b' ∷ []
          else [];
    })

  named_freeze : Option SpendOrUnfreezeReq → Exit (Outcome Decimal) SpendOrUnfreezeReq
  named_freeze none = exit (refuse clock Codes.bad_params "invalid param")
  named_freeze (some req) = do
    return_if (req.freeze_id == 0) (refuse clock Codes.bad_params "invalid param")
    next req

  -- The checks that `UnFreezeHandler` and `SpendHandler` share.
  check_freeze :
      String
      → Option SpendOrUnfreezeReq
      → Exit (Outcome Decimal) (UserMain × AccountBalance × AccountFlow)
  unfolding named_freeze
  check_freeze user_id body = do
    req ← named_freeze body
    let user = loaded no_user (db.user_main user_id)
    return_if (user.id == 0) (refuse clock Codes.obj_not_found "user not found")
    let b = loaded no_balance (db.account_balance user_id 0)
    let f = loaded no_flow (db.account_flow req.freeze_id)
    return_if (f.id == 0) (refuse clock Codes.obj_not_found "freeze not found")
    return_if (not (f.status == FlowStatus.pending))
        (refuse clock Codes.obj_not_found "freeze been reversed")
    next (user, b, f)

  unfoldable pub unfreeze : String → String → Option SpendOrUnfreezeReq → Outcome Decimal
  unfolding check_freeze settling_row inserted
  unfreeze client_id user_id body = answer do
    (user, b, f) ← check_freeze user_id body
    let f' = record f { status = FlowStatus.reversed; update_time = clock 1 }
    return_if (not (db.save_flow f')) (refuse clock Codes.unknown "freeze operation failed")
    let row = settling_row clock FlowKind.unfreeze client_id user f
    id ← inserted "unfreeze operation failed" (db.insert_flow row)
    let b' = record b { frozen = sub64 b.frozen f.amount; available = add64 b.available f.amount }
    return_if (not (db.save_balance b')) (refuse clock Codes.unknown "unfreeze operation failed")
    next (record {
      response = success clock (Payload.operation id "unfreeze");
      writes =
          if db.commit
          then Write.save_flow f'
            ∷ Write.create_flow (record row { id = id })
            ∷ Write.save_balance b'
            ∷ []
          else [];
    })

  unfoldable pub spend : String → String → Option SpendOrUnfreezeReq → Outcome Decimal
  unfolding check_freeze settling_row inserted
  spend client_id user_id body = answer do
    (user, b, f) ← check_freeze user_id body
    let f' = record f { status = FlowStatus.done; update_time = clock 1 }
    return_if (not (db.save_flow f')) (refuse clock Codes.unknown "spend operation failed")
    let row = settling_row clock FlowKind.spend client_id user f
    id ← inserted "spend operation failed" (db.insert_flow row)
    let b' = record b { frozen = sub64 b.frozen f.amount }
    return_if (not (db.save_balance b')) (refuse clock Codes.unknown "spend operation failed")
    next (record {
      response = success clock (Payload.operation id "spend");
      writes =
          if db.commit
          then Write.save_flow f'
            ∷ Write.create_flow (record row { id = id })
            ∷ Write.save_balance b'
            ∷ []
          else [];
    })
