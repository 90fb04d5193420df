-- ===== src/Console/Testing.antt =====
-- `TestingStart`, `TestingFinish` and `SubmitOnlineAudit`: how a game gets from a draft to the audit.
use tradeverse_api.Prelude.{
  String, not, [], ◌∷◌, str_eq, if◌then◌else◌, Option, none, next, ◌>>=◌, ◌>>◌, return_if, answer,
}
use tradeverse_api.Codes
use tradeverse_api.Web.{Clock, unix}
use tradeverse_api.Model.GameStatus
use tradeverse_api.Model.Game.{GameInfo}
use tradeverse_api.Console.{
  ConsoleDb, Outcome, Write, GameTestingStartReq, refuse, succeed, checked_game,
}

module _ (db : ConsoleDb) (clock : Clock) where
  unfoldable pub testing_start : Option String → Option GameTestingStartReq → Outcome (Unit {0})
  unfolding checked_game
  testing_start login body = answer do
    (req, game) ← checked_game db clock (λ r. r.game_id) login body
    return_if (not (str_eq game.status GameStatus.draft))
        (refuse clock Codes.bad_params "game is not draft")
    next (succeed clock none (Write.save_game (record game { status = GameStatus.testing }) ∷ []))

  unfoldable pub testing_finish : Option String → Option GameTestingStartReq → Outcome (Unit {0})
  unfolding checked_game
  testing_finish login body = answer do
    (req, game) ← checked_game db clock (λ r. r.game_id) login body
    return_if (not (str_eq game.status GameStatus.testing))
        (refuse clock Codes.bad_params "game is not testing")
    next (succeed clock none (Write.save_game (record game { status = GameStatus.tested }) ∷ []))

  submitted : GameInfo → Outcome (Unit {0})
  submitted game =
      if db.save_game game
      then record {
        reply = record {
          code = Codes.success;
          msg = "online audit submitted successfully";
          timestamp = unix (clock 0);
          body = none;
        };
        writes = Write.save_game game ∷ [];
      }
      else refuse clock Codes.unknown "update game status failed"

  unfoldable pub submit_online_audit :
      Option String → Option GameTestingStartReq → Outcome (Unit {0})
  unfolding checked_game submitted
  submit_online_audit login body = answer do
    (req, game) ← checked_game db clock (λ r. r.game_id) login body
    return_if (not (str_eq game.status GameStatus.tested))
        (refuse clock Codes.bad_params "game status not allowed for online audit")
    next (submitted (record game { status = GameStatus.pending_approve }))
