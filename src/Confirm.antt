-- ===== src/Confirm.antt =====
-- `ConfirmGameSession`, api/http/controller/auth/user.go: a player reports the score of a session
-- that has ended. `equal` is the `Equal` of shopspring/decimal, `sprintf_d` is
-- `fmt.Sprintf("%d", n)`.
use tradeverse_api.Prelude.{
  ℕ, String, Bool, not, List, [], ◌∷◌, ◌==◌, str_eq, if◌then◌else◌, Option, none, some, Exit, next,
  exit, ◌>>=◌, ◌>>◌, return_if, answer,
}
use tradeverse_api.Codes
use tradeverse_api.Web.{Clock, Payload, Response, failure, unix}
use tradeverse_api.Orm.{Query, Saved}
use tradeverse_api.Model.SessionStatus
use tradeverse_api.Model.Game.{GameSession}
pub mod Laws
mod Tests

pub record ConfirmDb (Decimal : Type 0) : Type 0 where
  -- session_id = ?
  pub game_session : String → Query (GameSession Decimal)
  pub save_session : GameSession Decimal → Saved

pub record ConfirmGameSessionReq (Decimal : Type 0) : Type 0 where
  pub session_id : String
  pub score : Decimal

-- The rows are those saved.
pub record Outcome (Decimal : Type 0) : Type 0 where
  pub response : Response
  pub writes : List (GameSession Decimal)

module _ {Decimal : Type 0} (equal : Decimal → Decimal → Bool) (sprintf_d : ℕ → String)
    (db : ConfirmDb Decimal) (clock : Clock) where
  refuse : ℕ → String → Outcome Decimal
  refuse c m = record { response = failure clock c m; writes = [] }

  bound_request :
      Option (ConfirmGameSessionReq Decimal)
      → Exit (Outcome Decimal) (ConfirmGameSessionReq Decimal)
  unfolding refuse
  bound_request none = exit (refuse Codes.bad_params "param error")
  bound_request (some req) = next req

  logged_in : Option String → Exit (Outcome Decimal) String
  unfolding refuse
  logged_in none = exit (refuse Codes.security "please login")
  logged_in (some main_id) = next main_id

  found_session : Query (GameSession Decimal) → Exit (Outcome Decimal) (GameSession Decimal)
  unfolding refuse
  found_session (Query.found s) = next s
  found_session Query.not_found = exit (refuse Codes.obj_not_found "game session not found")
  found_session Query.failed = exit (refuse Codes.unknown "query game session failed")

  -- Equal scores settle the session, others send it to an audit.
  confirmed : GameSession Decimal → Decimal → GameSession Decimal
  confirmed s score = record s {
    user_report_score = score;
    status = if not (equal s.score score) then SessionStatus.auditing else SessionStatus.settled;
  }

  unfoldable pub confirm_game_session :
      Option String → Option (ConfirmGameSessionReq Decimal) → Outcome Decimal
  unfolding refuse bound_request logged_in found_session confirmed
  confirm_game_session login body = answer do
    req ← bound_request body
    main_id ← logged_in login
    s ← found_session (db.game_session req.session_id)
    return_if (not (str_eq (sprintf_d s.main_id) main_id))
        (refuse Codes.bad_params "game session not owned by user")
    return_if (not (s.status == SessionStatus.ended))
        (refuse Codes.bad_params "game session not ended, or not in correct status")
    let s' = confirmed s req.score
    return_if (not (db.save_session s')) (refuse Codes.unknown "update game session failed")
    next (record {
      response = record {
        code = Codes.success;
        msg = "";
        timestamp = unix (clock 0);
        body = Payload.nothing;
      };
      writes = s' ∷ [];
    })
