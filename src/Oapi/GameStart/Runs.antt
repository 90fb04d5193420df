-- ===== src/Oapi/GameStart/Runs.antt =====
-- A run of `GameStartHandler`, api/oauth/jwt_middleware.go, with a database that answers every
-- call.
use tradeverse_api.Prelude.{
  ℕ, ◌+◌, ◌-◌, ◌≤◌, ◌<◌, String, len, true, ◌≡◌, ◌≢◌, some, [], ◌∷◌, arith, eq_iff, refl,
}
use tradeverse_api.Prelude.Words.{u64_mod, add64, sub64}
use tradeverse_api.Web.{Clock, Payload, success}
use tradeverse_api.Orm.{Query, Created}
use tradeverse_api.Model.SessionStatus
use tradeverse_api.Model.GameStatus
use tradeverse_api.Model.FlowKind
use tradeverse_api.Model.FlowStatus
use tradeverse_api.Model.Flow.{AccountFlow, AccountBalance}
use tradeverse_api.Model.Game.{GameInfo, GameSetting, GameSession}
use tradeverse_api.Model.User.{UserMain}
use tradeverse_api.Oapi.Calls.{GameDb, Write}
use tradeverse_api.Oapi.GameStart.{GameStartReq, Play, game_start, freeze_flow, frozen_account}

-- The user `user` runs the session of a game that is active, with a setting whose price the balance
-- row `b` has available; no freeze of the session is pending; and every row can be stored, a new
-- flow
-- with the primary key `key`.
pub record CanStart {Decimal : Type 0} (db : GameDb Decimal) (user_id : String) (req : GameStartReq)
    (user : UserMain) (session : GameSession Decimal) (setting : GameSetting) (info : GameInfo)
    (b : AccountBalance) (key : ℕ) : Type 0 where
  pub external_id_fits : len req.external_id ≤ 128
  pub remark_fits : len req.remark ≤ 128
  pub code_given : len req.play_setting_code ≢ 0
  pub user_found : db.user_main user_id ≡ Query.found user
  pub user_known : user.id ≢ 0
  pub session_found : db.game_session req.session_id ≡ Query.found session
  pub started : session.status ≡ SessionStatus.start
  pub session_owned : session.main_id ≡ user.id
  pub setting_found : db.game_setting session.game_id req.play_setting_code ≡ Query.found setting
  pub setting_known : setting.id ≢ 0
  pub info_found : db.game_info session.game_id ≡ Query.found info
  pub info_known : info.id ≢ 0
  pub is_active : info.status ≡ GameStatus.active
  pub none_pending :
      db.flow_of_session user.id session.session_id FlowKind.freeze FlowStatus.pending
      ≡ Query.not_found
  pub balance_found : db.locked_balance user.id 0 ≡ Query.found b
  pub enough : setting.amount_per_play ≤ b.available
  pub fits : b.available + b.frozen < u64_mod
  pub flow_created : (g : AccountFlow) → db.create_flow g ≡ Created.created key
  pub balance_saved : (c : AccountBalance) → db.save_balance c ≡ true
  pub committed : db.commit ≡ true

module _ {Decimal : Type 0} (db : GameDb Decimal) (clock : Clock) (client_id user_id : String)
    (req : GameStartReq) (user : UserMain) (session : GameSession Decimal) (setting : GameSetting)
    (info : GameInfo) (b : AccountBalance) (key : ℕ)
    (can : CanStart db user_id req user session setting info b key) where
  -- If the request is valid, the session runs, the game is active, no freeze of the session is
  -- pending, the price is available and every row can be stored, `game_start` answers with success
  -- and the new freeze's key, and it makes exactly two rows durable: a pending freeze of the user
  -- over the price, for this session, and the balance with the price moved from available to
  -- frozen.
  pub game_start_freezes :
      (f : AccountFlow) × (game_start db clock client_id user_id (some req) ≡ record {
        response = success clock (Payload.operation key "freeze");
        writes =
            Write.create_flow f
            ∷ Write.save_balance (record b {
              available = b.available - setting.amount_per_play;
              frozen = b.frozen + setting.amount_per_play;
            })
            ∷ [];
      })
      × (f.id ≡ key)
      × (f.main_id ≡ user.id)
      × (f.biz_type ≡ FlowKind.freeze)
      × (f.status ≡ FlowStatus.pending)
      × (f.amount ≡ setting.amount_per_play)
      × (f.session_id ≡ session.session_id)
  unfolding game_start freeze_flow frozen_account add64 sub64
  game_start_freezes =
      let p : Play Decimal = record {
        req = req;
        user_main = user;
        game_session = session;
        game_setting = setting;
      } in
      let f = freeze_flow db clock client_id p in
      (
        record f { id = key },
        ground (
          arith,
          eq_iff info.status GameStatus.active,
          eq_iff info.status GameStatus.draft,
          eq_iff info.status GameStatus.inactive,
          eq_iff GameStatus.active GameStatus.draft,
          eq_iff GameStatus.active GameStatus.inactive,
          can.flow_created f,
          can.balance_saved (frozen_account db clock setting.amount_per_play b),
        ),
        refl,
        refl,
        refl,
        refl,
        refl,
        refl,
      )
