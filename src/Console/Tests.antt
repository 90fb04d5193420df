-- ===== src/Console/Tests.antt =====
-- Developer 3 and his game 9.
use Prim.Native.Nat.{◌*◌}
use tradeverse_api.Prelude.{
  ℕ, String, true, ltb, if◌then◌else◌, [], ◌∷◌, none, some, ◌≡◌, refl, arith,
}
use tradeverse_api.Prelude.Integers.{ℤ}
use tradeverse_api.Web.{Clock, second}
use tradeverse_api.Orm.{Query}
use tradeverse_api.Model.GameStatus
use tradeverse_api.Model.Game.{
  GameDeveloper, GameInfo, GameApp, GameSetting, no_developer, no_info, no_app, no_setting,
}
use tradeverse_api.Console.{ConsoleDb, Write, succeed, GameTestingStartReq, GameSettingDeleteReq}
use tradeverse_api.Console.Testing.{submit_online_audit}
use tradeverse_api.Console.Settings.{DecimalOps, delete_setting}
use tradeverse_api.Console.Keys.{generate_id, refresh_game_key}
use tradeverse_api.Console.Sessions.{page_offset}
use tradeverse_api.Console.Status.{
  Call, Stored, Kept, ◌↝◌, ◌↝*◌, run, stored_game, run-Stored, path-Kept,
}
use tradeverse_api.Console.Runs.{audit_skips_tests, refresh_takes_over}

abbrev clock : Clock
clock n = n * second

abbrev developer : GameDeveloper
developer = record no_developer { id = 3; dev_name = "ann" }

abbrev game : GameInfo
game = record no_info { id = 9; dev_id = 3; name = "chess"; status = GameStatus.draft }

abbrev setting : GameSetting
setting = record no_setting { id = 4; game_id = 9; code = "blitz" }

abbrev app : GameApp
app = record no_app { id = 5; game_id = 9; client_id = "abcde-app-12345"; client_secret = "old" }

abbrev finds : GameInfo → ConsoleDb
finds g = record {
  developer = λ i. Query.found developer;
  game_info = λ i. Query.found g;
  game_of = λ d i. Query.found g;
  games_of = λ d. g ∷ [];
  game_app = λ i. Query.found app;
  app_of_client = λ c. Query.found app;
  settings_of = λ i. setting ∷ [];
  game_setting = λ i c. Query.found setting;
  save_game = λ g. true;
}

abbrev with_status : String → GameInfo
with_status s = record game { status = s }

abbrev start_req : GameTestingStartReq
start_req = record { game_id = 9 }

abbrev remove_req : GameSettingDeleteReq
remove_req = record { game_id = 9; code = "blitz" }

-- Decimals that are numbers of millionths.
abbrev ops : DecimalOps ℕ
ops = record {
  mul = λ a b. a;
  new_from_int = λ i. 0;
  round = λ d i. d;
  big_int = λ d. ℤ.pos d;
  uint64 = λ i. 0;
}

run-Stored_example :
    Stored {Decimal = ℕ}
      (finds game)
      "3"
      (Call.start start_req)
      (stored_game (run ops (finds game) clock "3" (Call.start start_req)).writes)
run-Stored_example = run-Stored ops (finds game) clock "3" (Call.start start_req)

start_stored :
    stored_game (run ops (finds game) clock "3" (Call.start start_req)).writes
    ≡ some (with_status GameStatus.testing)
unfolding run
start_stored = refl

start_step : game ↝ with_status GameStatus.testing
start_step =
    ◌↝◌.call ops (finds game) clock "3" (Call.start start_req) refl (ground arith) start_stored

path-Kept_example : Kept game (with_status GameStatus.testing)
path-Kept_example = path-Kept (◌↝*◌.then start_step ◌↝*◌.here)

audit_skips_tests_example :
    (stored_game (delete_setting (finds game) clock (some "3") (some remove_req)).writes
      ≡ some (with_status "06"))
    × (stored_game
          (submit_online_audit (finds (with_status "06")) clock (some "3") (some start_req)).writes
        ≡ some (with_status "07"))
audit_skips_tests_example =
    audit_skips_tests clock "3" developer 9 game (finds game) (finds (with_status "06")) "blitz"
      setting (refl, ground arith, refl, ground arith, refl) refl (ground arith)
      (refl, ground arith, refl, ground arith, refl) refl

-- Developer 8 asks for the key of the game of developer 3.
abbrev stranger : GameDeveloper
stranger = record no_developer { id = 8 }

abbrev strange : ConsoleDb
strange = record (finds game) { developer = λ i. Query.found stranger }

refresh_takes_over_example :
    refresh_game_key strange clock
      (λ k n. 0)
      "new"
      (some "8")
      (some (record { client_id = "abcde-app-12345"; game_id = 9 }))
    ≡ succeed clock none (Write.save_app (record app { client_secret = "new" }) ∷ [])
refresh_takes_over_example =
    refresh_takes_over strange clock (λ k n. 0) "new" "8" stranger game app refl (ground arith) refl
      (ground arith) (ground arith) refl (ground arith) refl refl (ground arith)

generated : generate_id (λ k n. if ltb k n then k else 0) ≡ "cdefg-app-789000"
unfolding generate_id
generated = refl

third_page : page_offset 3 20 ≡ ℤ.pos 40
third_page = refl
