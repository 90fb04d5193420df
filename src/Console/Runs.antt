-- ===== src/Console/Runs.antt =====
-- Runs of several calls of the console, and what `RefreshGameKey` does to the game of another
-- developer.
use tradeverse_api.Prelude.{ℕ, String, len, true, [], ◌∷◌, none, some, next, ◌≡◌, ◌≢◌, ◌⊎◌, arith}
use tradeverse_api.Prelude.Integers.{ℤ}
use tradeverse_api.Random.{Draws}
use tradeverse_api.Web.{Clock}
use tradeverse_api.Orm.{Query, loaded}
use tradeverse_api.Model.GameStatus
use tradeverse_api.Model.Game.{GameDeveloper, GameInfo, GameApp, GameSetting, no_app}
use tradeverse_api.Console.{
  ConsoleDb, Write, succeed, checked_game, GameKeyReq, GameTestingStartReq, GameSettingDeleteReq,
}
use tradeverse_api.Console.Testing.{testing_start, testing_finish, submit_online_audit}
use tradeverse_api.Console.Settings.{delete_setting}
use tradeverse_api.Console.Keys.{refresh_game_key}
use tradeverse_api.Console.Status.{stored_game}

-- The database knows the developer, and the game as his.
abbrev pub Owns : ConsoleDb → String → GameDeveloper → ℕ → GameInfo → Type 0
Owns db dev_id developer id game =
    (db.developer dev_id ≡ Query.found developer)
    × (developer.id ≢ 0)
    × (db.game_info (ℤ.pos id) ≡ Query.found game)
    × (game.id ≢ 0)
    × (game.dev_id ≡ developer.id)

-- A developer passes the checks with a game of his.
checked_own :
    {Body Req : Type 0} (db : ConsoleDb) (clock : Clock) (game_id : Req → ℕ) (dev_id : String)
    (developer : GameDeveloper) (req : Req) (game : GameInfo)
    → Owns db dev_id developer (game_id req) game
    → checked_game {Body = Body} db clock game_id (some dev_id) (some req) ≡ next (req, game)
unfolding checked_game
checked_own db clock game_id dev_id developer req game owned = ground arith

module _ (clock : Clock) (dev_id : String) (developer : GameDeveloper) (id : ℕ)
    (game : GameInfo) where
  abbrev request : GameTestingStartReq
  request = record { game_id = id }

  -- A developer gets a draft of his to the audit in three calls, if each call finds what the one
  -- before has stored: the test starts, it finishes, and the audit is asked for.
  pub draft_to_audit :
      (db₁ db₂ db₃ : ConsoleDb)
      → Owns db₁ dev_id developer id (record game { status = GameStatus.draft })
      → Owns db₂ dev_id developer id (record game { status = GameStatus.testing })
      → Owns db₃ dev_id developer id (record game { status = GameStatus.tested })
      → db₃.save_game (record game { status = GameStatus.pending_approve }) ≡ true
      → (stored_game (testing_start db₁ clock (some dev_id) (some request)).writes
          ≡ some (record game { status = GameStatus.testing }))
        × (stored_game (testing_finish db₂ clock (some dev_id) (some request)).writes
            ≡ some (record game { status = GameStatus.tested }))
        × (stored_game (submit_online_audit db₃ clock (some dev_id) (some request)).writes
            ≡ some (record game { status = GameStatus.pending_approve }))
  unfolding testing_start testing_finish submit_online_audit
  draft_to_audit db₁ db₂ db₃ o₁ o₂ o₃ saved = ground (
    arith,
    checked_own {Body = Unit {0}} db₁ clock (λ r. r.game_id) dev_id developer request _ o₁,
    checked_own {Body = Unit {0}} db₂ clock (λ r. r.game_id) dev_id developer request _ o₂,
    checked_own {Body = Unit {0}} db₃ clock (λ r. r.game_id) dev_id developer request _ o₃,
  )

  -- A developer gets a game of his to the audit in two calls, whatever its status is, a draft that was
  -- never tested included: he deletes one of its settings, which makes it a tested game, and asks for
  -- the audit.
  pub audit_skips_tests :
      (db₁ db₂ : ConsoleDb) (code : String) (setting : GameSetting)
      → Owns db₁ dev_id developer id game
      → db₁.game_setting id code ≡ Query.found setting
      → setting.id ≢ 0
      → Owns db₂ dev_id developer id (record game { status = GameStatus.tested })
      → db₂.save_game (record game { status = GameStatus.pending_approve }) ≡ true
      → let req : GameSettingDeleteReq = record { game_id = id; code = code } in
        (stored_game (delete_setting db₁ clock (some dev_id) (some req)).writes
          ≡ some (record game { status = GameStatus.tested }))
        × (stored_game (submit_online_audit db₂ clock (some dev_id) (some request)).writes
            ≡ some (record game { status = GameStatus.pending_approve }))
  unfolding delete_setting submit_online_audit
  audit_skips_tests db₁ db₂ code setting o₁ found known o₂ saved =
      let req : GameSettingDeleteReq = record { game_id = id; code = code } in
      ground (
        arith,
        checked_own {Body = Unit {0}} db₁ clock (λ r. r.game_id) dev_id developer req _ o₁,
        checked_own {Body = Unit {0}} db₂ clock (λ r. r.game_id) dev_id developer request _ o₂,
      )

module _ (db : ConsoleDb) (clock : Clock) (intn : Draws) (new_uuid : String) where
  -- Any developer who is logged in can replace the secret of a game of another developer: if he asks
  -- for the client id that the app of the game has, the app is stored with a new secret, and the
  -- developer of the game is never looked at.
  pub refresh_takes_over :
      (dev_id : String) (developer : GameDeveloper) (game : GameInfo) (app : GameApp)
      → db.developer dev_id ≡ Query.found developer
      → developer.id ≢ 0
      → db.game_info (ℤ.pos game.id) ≡ Query.found game
      → game.id ≢ 0
      → game.dev_id ≢ developer.id
      → db.game_app game.id ≡ Query.found app
      → app.id ≢ 0
      → app.game_id ≡ game.id
      → db.app_of_client app.client_id ≡ Query.found app
      → len app.client_id ≢ 0
      → refresh_game_key db clock intn new_uuid
          (some dev_id)
          (some (record { client_id = app.client_id; game_id = game.id }))
        ≡ succeed clock none (Write.save_app (record app { client_secret = new_uuid }) ∷ [])
  unfolding refresh_game_key
  refresh_takes_over dev_id developer game app found known here real other has some_app its client
        named =
      ground arith

  -- A client id that the database finds under another game is refused: an app is stored only with a
  -- client id under which no app, or an app of the same game, was found.
  pub refresh_apart :
      (dev_id : String) (req : GameKeyReq) (app : GameApp)
      → (refresh_game_key db clock intn new_uuid (some dev_id) (some req)).writes
        ≡ Write.save_app app ∷ []
      → let exist = loaded no_app (db.app_of_client app.client_id) in
        (exist.id ≡ 0) ⊎ (exist.game_id ≡ req.game_id)
  unfolding refresh_game_key
  refresh_apart dev_id req app stored = ground arith
