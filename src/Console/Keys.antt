-- ===== src/Console/Keys.antt =====
-- `RefreshGameKey` and `generateID`: the client id and the secret with which a game calls the OAuth
-- endpoints. The draws and the text of `uuid.New()` are arguments. The handler does not
-- compare the developer of the game with the one who is logged in.
use Prim.Native.String.{◌++◌}
use tradeverse_api.Prelude.{
  ◌+◌, String, len, not, ◌&&◌, [], ◌∷◌, ltb, ◌==◌, if◌then◌else◌, Option, none, next, ◌>>=◌, ◌>>◌,
  return_if, answer,
}
use tradeverse_api.Prelude.Integers.{ℤ}
use tradeverse_api.Random.{Draws, random_text, letters, digits}
use tradeverse_api.Codes
use tradeverse_api.Web.{Clock}
use tradeverse_api.Orm.{loaded}
use tradeverse_api.Model.Game.{GameInfo, GameApp, no_app}
use tradeverse_api.Console.{
  ConsoleDb, Outcome, Write, GameKeyReq, refuse, succeed, bound_request, logged_in, known_developer,
  known_game,
}

unfoldable pub generate_id : Draws → String
unfolding random_text
generate_id intn =
    let letter_len = intn 0 4 + 5 in
    let digit_len = intn 1 4 + 5 in
    random_text intn letters 2 letter_len
    ++ "-app-"
    ++ random_text intn digits (2 + letter_len) digit_len

module _ (db : ConsoleDb) (clock : Clock) (intn : Draws) (new_uuid : String) where
  app_or_new : GameKeyReq → GameInfo → GameApp
  app_or_new req game =
      let app = loaded no_app (db.game_app req.game_id) in
      if app.id == 0 then record app { add_time = clock 1; game_id = game.id } else app

  chosen_client : GameKeyReq → String
  unfolding generate_id
  chosen_client req = if len req.client_id == 0 then generate_id intn else req.client_id

  unfoldable pub refresh_game_key : Option String → Option GameKeyReq → Outcome (Unit {0})
  unfolding bound_request logged_in known_developer known_game app_or_new chosen_client
  refresh_game_key login body = answer do
    req ← bound_request db clock body
    dev_id ← logged_in db clock login
    developer ← known_developer db clock dev_id
    game ← known_game db clock (ℤ.pos req.game_id)
    let app = app_or_new req game
    let exist = loaded no_app (db.app_of_client (chosen_client req))
    return_if (ltb 0 exist.id && not (exist.game_id == req.game_id))
        (refuse clock Codes.exist_obj "client id already exists")
    next (
        succeed clock none (
          Write.save_app (record app { client_secret = new_uuid; client_id = chosen_client req })
          ∷ []))
