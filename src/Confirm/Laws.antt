-- ===== src/Confirm/Laws.antt =====
-- What `confirm_game_session` saves.
use tradeverse_api.Prelude.{
  ℕ, String, Bool, ◌≡◌, ◌≢◌, Option, some, List, [], ◌∷◌, arith, eq_iff, if◌then◌else◌,
}
use tradeverse_api.Codes
use tradeverse_api.Web.{Clock}
use tradeverse_api.Orm.{Query}
use tradeverse_api.Model.SessionStatus
use tradeverse_api.Model.Game.{GameSession}
use tradeverse_api.Confirm.{ConfirmDb, ConfirmGameSessionReq, confirm_game_session}

-- The writes are none, or they save the session `s` with the reported score and this status.
abbrev pub Confirms :
    {Decimal : Type 0} → GameSession Decimal → Decimal → ℕ → List (GameSession Decimal) → Type 0
Confirms s score status [] = Unit
Confirms s score status (s' ∷ []) = s' ≡ record s { user_report_score = score; status = status }
Confirms s score status _ = ⊥

module _ {Decimal : Type 0} (equal : Decimal → Decimal → Bool) (sprintf_d : ℕ → String)
    (db : ConfirmDb Decimal) (clock : Clock) (main_id : String)
    (req : ConfirmGameSessionReq Decimal) (s : GameSession Decimal)
    (found : db.game_session req.session_id ≡ Query.found s) where
  -- For the session that is found: something is saved only if the session has ended and the
  -- formatted owner is the user, and what is saved is the session with the reported score, settled
  -- if the scores are equal and sent to an audit if they are not.
  pub confirm_saves :
      let ws = (confirm_game_session equal sprintf_d db clock (some main_id) (some req)).writes in
      Confirms s req.score
        (if equal s.score req.score then SessionStatus.settled else SessionStatus.auditing)
        ws
      × (ws ≢ [] → (s.status ≡ SessionStatus.ended) × (sprintf_d s.main_id ≡ main_id))
  unfolding confirm_game_session
  confirm_saves = (ground arith, ground (arith, eq_iff (sprintf_d s.main_id) main_id))

abbrev pub Saves : {Decimal : Type 0} → GameSession Decimal → List (GameSession Decimal) → Type 0
Saves s [] = ⊥
Saves s (s' ∷ ss) = s' ≡ s

-- A session that one confirmation has saved is refused by every other: nothing more is saved, and
-- the response has an error code.
pub confirm_once :
    {Decimal : Type 0} (equal equal' : Decimal → Decimal → Bool) (sprintf_d : ℕ → String)
    (db db' : ConfirmDb Decimal) (clock clock' : Clock) (login login' : Option String)
    (body : Option (ConfirmGameSessionReq Decimal)) (req' : ConfirmGameSessionReq Decimal)
    (s : GameSession Decimal)
    → Saves s (confirm_game_session equal sprintf_d db clock login body).writes
    → db'.game_session req'.session_id ≡ Query.found s
    → ((confirm_game_session equal' sprintf_d db' clock' login' (some req')).writes ≡ [])
      × ((confirm_game_session equal' sprintf_d db' clock' login' (some req')).response.code
          ≢ Codes.success)
unfolding confirm_game_session
confirm_once equal equal' f db db' clock clock' login login' body req' s saved found = ground arith
