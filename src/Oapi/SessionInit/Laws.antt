-- ===== src/Oapi/SessionInit/Laws.antt =====
-- What `game_session_init` creates.
use tradeverse_api.Prelude.{
  ℕ, String, ◌≡◌, ◌≢◌, List, [], ◌∷◌, arith, str_eq, if◌then◌else◌, eq_iff,
}
use tradeverse_api.Web.{Clock}
use tradeverse_api.Orm.{Query, loaded}
use tradeverse_api.Model.SessionStatus
use tradeverse_api.Model.GameStatus
use tradeverse_api.Model.Game.{no_info, no_app}
use tradeverse_api.Model.User.{no_user}
use tradeverse_api.Oapi.Calls.{GameDb, Write}
use tradeverse_api.Oapi.SessionInit.{game_session_init}

-- The writes are none, or they create one started session of this user and game.
abbrev pub Opens : {Decimal : Type 0} → ℕ → ℕ → ℕ → List (Write Decimal) → Type 0
Opens user game testing [] = Unit
Opens user game testing (Write.create_session s ∷ []) =
    (s.main_id ≡ user)
    × (s.game_id ≡ game)
    × (s.status ≡ SessionStatus.start)
    × (s.testing ≡ testing)
Opens user game testing _ = ⊥

module _ {Decimal : Type 0} (zero_decimal : Decimal) (db : GameDb Decimal) (clock : Clock)
    (client_id user_id session_id : String) where
  -- A call writes nothing, or it creates one started session of the token's user and of the game of
  -- the client's app, which counts as a test exactly if the client's game is not active; and it
  -- writes nothing if the user has a started session of that game already, or if the game is a
  -- draft or inactive.
  pub session_init-Opens :
      let user = (loaded no_user (db.user_main user_id)).id in
      let game = (loaded no_app (db.game_app client_id)).game_id in
      let info = loaded no_info (db.game_info_of_client client_id) in
      let ws = (game_session_init zero_decimal db clock client_id user_id session_id).writes in
      Opens user game (if str_eq info.status GameStatus.active then 0 else 1) ws
      × (ws ≢ [] → db.session_with_status user game SessionStatus.start ≡ Query.not_found)
      × (ws ≢ [] → (info.status ≢ GameStatus.draft) × (info.status ≢ GameStatus.inactive))
  unfolding game_session_init
  session_init-Opens =
      let info = loaded no_info (db.game_info_of_client client_id) in
      (
        ground arith,
        ground arith,
        ground (arith, eq_iff info.status GameStatus.draft, eq_iff info.status GameStatus.inactive),
      )
