-- ===== src/Oapi/GameEnd/Runs.antt =====
-- A run of `GameEndHandler`, api/oauth/jwt_middleware.go, with a database that answers every call.
use tradeverse_api.Prelude.{
  ℕ, ◌-◌, ◌≤◌, ◌<◌, String, true, ◌≡◌, ◌≢◌, some, [], ◌∷◌, arith, eq_iff, refl,
}
use tradeverse_api.Prelude.Words.{u64_mod, sub64}
use tradeverse_api.Web.{Clock, Payload, success}
use tradeverse_api.Orm.{Query, Created}
use tradeverse_api.Model.SessionStatus
use tradeverse_api.Model.FlowKind
use tradeverse_api.Model.FlowStatus
use tradeverse_api.Model.Flow.{AccountFlow, AccountBalance}
use tradeverse_api.Model.Game.{GameApp, GameSession}
use tradeverse_api.Model.User.{UserMain}
use tradeverse_api.Oapi.Calls.{GameDb, Write}
use tradeverse_api.Oapi.GameEnd.{GameEndReq, Finish, game_end, spend_flow, ended_session}

-- The user `user` runs the session, which belongs to the client's game; the freeze `f` is the
-- user's, of this session, pending and not spent; the balance row `b` has it frozen; and every row
-- can be stored, a new flow with the primary key `key`.
pub record CanFinish {Decimal : Type 0} (db : GameDb Decimal) (client_id user_id : String)
    (req : GameEndReq Decimal) (user : UserMain) (session : GameSession Decimal) (app : GameApp)
    (f : AccountFlow) (b : AccountBalance) (key : ℕ) : Type 0 where
  pub user_found : db.user_main user_id ≡ Query.found user
  pub user_known : user.id ≢ 0
  pub session_found : db.game_session req.session_id ≡ Query.found session
  pub started : session.status ≡ SessionStatus.start
  pub session_owned : session.main_id ≡ user.id
  pub app_found : db.game_app client_id ≡ Query.found app
  pub app_known : app.id ≢ 0
  pub of_client : app.game_id ≡ session.game_id
  pub freeze_found : db.account_flow req.game_start_id ≡ Query.found f
  pub freeze_known : f.id ≢ 0
  pub freeze_owned : f.main_id ≡ user.id
  pub is_freeze : f.biz_type ≡ FlowKind.freeze
  pub of_session : f.session_id ≡ session.session_id
  pub unspent : db.flow_of_ref f.id FlowKind.spend session.session_id ≡ Query.not_found
  pub still_pending :
      db.locked_flow req.game_start_id session.session_id FlowKind.freeze FlowStatus.pending
      ≡ Query.found f
  pub balance_found : db.locked_balance user.id 0 ≡ Query.found b
  pub enough : f.amount ≤ b.frozen
  pub fits : b.frozen < u64_mod
  pub flow_created : (g : AccountFlow) → db.create_flow g ≡ Created.created key
  pub balance_saved : (c : AccountBalance) → db.save_balance c ≡ true
  pub flow_saved : (g : AccountFlow) → db.save_flow g ≡ true
  pub session_saved : (s : GameSession Decimal) → db.save_session s ≡ true
  pub committed : db.commit ≡ true

module _ {Decimal : Type 0} (db : GameDb Decimal) (clock : Clock) (client_id user_id : String)
    (req : GameEndReq Decimal) (user : UserMain) (session : GameSession Decimal) (app : GameApp)
    (f : AccountFlow) (b : AccountBalance) (key : ℕ)
    (can : CanFinish db client_id user_id req user session app f b key) where
  -- If the session runs and belongs to the client's game, the freeze is the user's, of this
  -- session, pending, not spent and covered by the frozen money, and every row can be stored,
  -- `game_end` answers with success and the new spend's key, and it makes exactly four rows
  -- durable: a spend of the freeze's amount that refers to the freeze, the balance with the amount
  -- taken from its frozen money, the freeze as done, and the session as ended with the reported
  -- score and the amount spent.
  pub game_end_settles :
      (s : AccountFlow) × (game_end db clock client_id user_id (some req) ≡ record {
        response = success clock (Payload.operation key "spend");
        writes =
            Write.create_flow s
            ∷ Write.save_balance (record b { frozen = b.frozen - f.amount })
            ∷ Write.save_flow (record f { status = FlowStatus.done; update_time = clock 3 })
            ∷ Write.save_session (record session {
              status = SessionStatus.ended;
              end_time = clock 4;
              score = req.score;
              spend_amount_n = f.amount;
            })
            ∷ [];
      })
      × (s.id ≡ key)
      × (s.main_id ≡ user.id)
      × (s.biz_type ≡ FlowKind.spend)
      × (s.status ≡ FlowStatus.done)
      × (s.amount ≡ f.amount)
      × (s.ref_flow_id ≡ f.id)
  unfolding game_end spend_flow ended_session sub64
  game_end_settles =
      let e : Finish Decimal = record {
        req = req;
        user_main = user;
        game_session = session;
        freeze_flow = f;
      } in
      let s = spend_flow db clock client_id e f in
      (
        record s { id = key },
        ground (
          arith,
          eq_iff f.session_id session.session_id,
          can.flow_created s,
          can.balance_saved (record b { frozen = sub64 b.frozen f.amount }),
          can.flow_saved (record f { status = FlowStatus.done; update_time = clock 3 }),
          can.session_saved (ended_session db clock e s),
        ),
        refl,
        refl,
        refl,
        refl,
        refl,
        refl,
      )
