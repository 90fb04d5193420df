-- ===== src/Oapi/Tests/Runs.antt =====
-- Runs of `game_start` and `game_end` that succeed.
use tradeverse_api.Oapi.GameEnd.Runs.{CanFinish, game_end_settles}
use tradeverse_api.Oapi.GameStart.Runs.{CanStart, game_start_freezes}
use tradeverse_api.Prelude.{ℕ, ◌≡◌, some, [], ◌∷◌, arith, refl}
use tradeverse_api.Web.{Payload, success}
use tradeverse_api.Model.FlowKind
use tradeverse_api.Model.FlowStatus
use tradeverse_api.Model.GameStatus
use tradeverse_api.Model.SessionStatus
use tradeverse_api.Model.Flow.{AccountFlow}
use tradeverse_api.Model.Game.{no_info, no_app, no_setting}
use tradeverse_api.Oapi.Calls.{Write}
use tradeverse_api.Oapi.GameStart.{GameStartReq, game_start}
use tradeverse_api.Oapi.GameEnd.{GameEndReq, game_end}
use tradeverse_api.Oapi.Tests.{clock, user, row, freeze, session, db}

abbrev start_req : GameStartReq
start_req = record { session_id = "s1"; play_setting_code = "p"; external_id = ""; remark = "" }

db-CanStart :
    CanStart db "7" start_req user session
      (record no_setting { id = 4; amount_per_play = 20 })
      (record no_info { id = 3; status = GameStatus.active })
      row
      9
db-CanStart = record {
  external_id_fits = ground arith;
  remark_fits = ground arith;
  code_given = ground arith;
  user_found = refl;
  user_known = ground arith;
  session_found = refl;
  started = refl;
  session_owned = refl;
  setting_found = refl;
  setting_known = ground arith;
  info_found = refl;
  info_known = ground arith;
  is_active = refl;
  none_pending = refl;
  balance_found = refl;
  enough = ground arith;
  fits = ground arith;
  flow_created = λ g. refl;
  balance_saved = λ c. refl;
  committed = refl;
}

game_start_freezes_example :
    (f : AccountFlow) × (game_start db clock "c" "7" (some start_req) ≡ record {
      response = success clock (Payload.operation 9 "freeze");
      writes =
          Write.create_flow f
          ∷ Write.save_balance (record row { available = 70; frozen = 30 })
          ∷ [];
    })
    × (f.id ≡ 9)
    × (f.main_id ≡ 7)
    × (f.biz_type ≡ FlowKind.freeze)
    × (f.status ≡ FlowStatus.pending)
    × (f.amount ≡ 20)
    × (f.session_id ≡ "s1")
game_start_freezes_example =
    game_start_freezes db clock "c" "7" start_req user session
      (record no_setting { id = 4; amount_per_play = 20 })
      (record no_info { id = 3; status = GameStatus.active }) row 9 db-CanStart

abbrev end_req : GameEndReq ℕ
end_req = record { session_id = "s1"; score = 42; game_start_id = 5 }

db-CanFinish :
    CanFinish db "c" "7" end_req user session (record no_app { id = 2; game_id = 3 }) freeze row 9
db-CanFinish = record {
  user_found = refl;
  user_known = ground arith;
  session_found = refl;
  started = refl;
  session_owned = refl;
  app_found = refl;
  app_known = ground arith;
  of_client = refl;
  freeze_found = refl;
  freeze_known = ground arith;
  freeze_owned = refl;
  is_freeze = refl;
  of_session = refl;
  unspent = refl;
  still_pending = refl;
  balance_found = refl;
  enough = ground arith;
  fits = ground arith;
  flow_created = λ g. refl;
  balance_saved = λ c. refl;
  flow_saved = λ g. refl;
  session_saved = λ s. refl;
  committed = refl;
}

game_end_settles_example :
    (s : AccountFlow) × (game_end db clock "c" "7" (some end_req) ≡ record {
      response = success clock (Payload.operation 9 "spend");
      writes =
          Write.create_flow s
          ∷ Write.save_balance (record row { frozen = 0 })
          ∷ Write.save_flow (record freeze { status = FlowStatus.done; update_time = 3 })
          ∷ Write.save_session (record session {
            status = SessionStatus.ended;
            end_time = 4;
            score = 42;
            spend_amount_n = 10;
          })
          ∷ [];
    })
    × (s.id ≡ 9)
    × (s.main_id ≡ 7)
    × (s.biz_type ≡ FlowKind.spend)
    × (s.status ≡ FlowStatus.done)
    × (s.amount ≡ 10)
    × (s.ref_flow_id ≡ 5)
game_end_settles_example =
    game_end_settles db clock "c" "7" end_req user session (record no_app { id = 2; game_id = 3 })
      freeze row 9 db-CanFinish
