-- ===== src/Console/Settings.antt =====
-- `SaveSetting` and `DeleteSetting`: the prices of a play. The decimals of shopspring/decimal and
-- `Uint64` of math/big are arguments.
use tradeverse_api.Prelude.{
  ℕ, String, len, List, [], ◌∷◌, ltb, ◌==◌, str_eq, if◌then◌else◌, Option, none, next, ◌>>=◌, ◌>>◌,
  return_if, answer,
}
use tradeverse_api.Prelude.Integers.{ℤ}
use tradeverse_api.Codes
use tradeverse_api.Web.{Clock}
use tradeverse_api.Orm.{loaded}
use tradeverse_api.Model.GameStatus
use tradeverse_api.Model.Game.{GameInfo, GameSetting, no_setting}
use tradeverse_api.Console.{
  ConsoleDb, Outcome, Write, GameSettingSaveReq, GameSettingDeleteReq, refuse, succeed,
  checked_game,
}

pub record DecimalOps (Decimal : Type 0) : Type 0 where
  pub mul : Decimal → Decimal → Decimal
  pub new_from_int : ℤ → Decimal
  pub round : Decimal → ℤ → Decimal
  pub big_int : Decimal → ℤ
  -- of math/big
  pub uint64 : ℤ → ℕ

module _ (db : ConsoleDb) (clock : Clock) where
  module _ {Decimal : Type 0} (ops : DecimalOps Decimal) where
    -- The amount in millionths.
    abbrev millionths : Decimal → ℕ
    millionths d =
        ops.uint64
          (ops.big_int (ops.round (ops.mul d (ops.new_from_int (ℤ.pos 1000000))) (ℤ.pos 0)))

    setting_or_new : GameSettingSaveReq Decimal → GameInfo → GameSetting
    setting_or_new req game =
        let setting = loaded no_setting (db.game_setting req.game_id req.code) in
        if setting.id == 0
        then record setting { game_id = game.id; add_time = clock 1 }
        else setting

    edited_setting : GameSettingSaveReq Decimal → GameInfo → GameSetting
    unfolding setting_or_new
    edited_setting req game = record (setting_or_new req game) {
      code = req.code;
      catalog = req.catalog;
      amount_per_play = millionths req.amount_per_play;
    }

    -- A game that is online has to be tested again.
    withdrawn_game : GameInfo → List Write
    withdrawn_game game =
        if str_eq game.status GameStatus.active
        then Write.save_game (record game { status = GameStatus.tested }) ∷ []
        else []

    unfoldable pub save_setting :
        Option String → Option (GameSettingSaveReq Decimal) → Outcome (Unit {0})
    unfolding checked_game edited_setting withdrawn_game
    save_setting login body = answer do
      (req, game) ← checked_game db clock (λ r. r.game_id) login body
      return_if (len req.code == 0) (refuse clock Codes.bad_params "code is required")
      next (succeed clock none (Write.save_setting (edited_setting req game) ∷ withdrawn_game game))

  -- The game becomes a tested one whatever its status was.
  deleted_setting : GameInfo → GameSetting → List Write
  deleted_setting game setting =
      if ltb 0 setting.id
      then Write.delete_setting setting
        ∷ Write.save_game (record game { status = GameStatus.tested })
        ∷ []
      else []

  unfoldable pub delete_setting : Option String → Option GameSettingDeleteReq → Outcome (Unit {0})
  unfolding checked_game deleted_setting
  delete_setting login body = answer do
    (req, game) ← checked_game db clock (λ r. r.game_id) login body
    let setting = loaded no_setting (db.game_setting req.game_id req.code)
    next (succeed clock none (deleted_setting game setting))
