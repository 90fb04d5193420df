-- ===== src/Console/Status.antt =====
-- How the console moves a game from one status to another. A call is one of the handlers that may
-- store a game, with its request.
use tradeverse_api.Prelude.{
  String, List, [], ◌∷◌, Option, none, some, ◌≡◌, refl, ◌≢◌, ◌⊎◌, inl, inr, eq_iff, arith, false,
  subst, str_eq,
}
use tradeverse_api.Prelude.Integers.{ℤ}
use tradeverse_api.Web.{Clock}
use tradeverse_api.Orm.{Query, loaded}
use tradeverse_api.Model.GameStatus
use tradeverse_api.Model.Game.{GameInfo, no_info, no_developer}
use tradeverse_api.Console.{
  ConsoleDb, Outcome, Write, UpdateGameReq, GameTestingStartReq, GameSettingSaveReq,
  GameSettingDeleteReq,
}
use tradeverse_api.Console.Games.{update_game}
use tradeverse_api.Console.Testing.{testing_start, testing_finish, submit_online_audit}
use tradeverse_api.Console.Settings.{DecimalOps, save_setting, delete_setting}

pub data Call (Decimal : Type 0) : Type 0 where
  update : UpdateGameReq → Call Decimal
  start : GameTestingStartReq → Call Decimal
  finish : GameTestingStartReq → Call Decimal
  audit : GameTestingStartReq → Call Decimal
  save : GameSettingSaveReq Decimal → Call Decimal
  remove : GameSettingDeleteReq → Call Decimal

-- The statuses that a call moves a game from and to.
abbrev pub Moves : {Decimal : Type 0} → Call Decimal → String → String → Type 0
Moves (Call.update req) s t = (t ≡ s) ⊎ ((s ≡ GameStatus.active) × (t ≡ GameStatus.tested))
Moves (Call.start req) s t = (s ≡ GameStatus.draft) × (t ≡ GameStatus.testing)
Moves (Call.finish req) s t = (s ≡ GameStatus.testing) × (t ≡ GameStatus.tested)
Moves (Call.audit req) s t = (s ≡ GameStatus.tested) × (t ≡ GameStatus.pending_approve)
Moves (Call.save req) s t = (s ≡ GameStatus.active) × (t ≡ GameStatus.tested)
Moves (Call.remove req) s t = t ≡ GameStatus.tested

abbrev pub game_id : {Decimal : Type 0} → Call Decimal → ℤ
game_id (Call.update req) = req.id
game_id (Call.start req) = ℤ.pos req.game_id
game_id (Call.finish req) = ℤ.pos req.game_id
game_id (Call.audit req) = ℤ.pos req.game_id
game_id (Call.save req) = ℤ.pos req.game_id
game_id (Call.remove req) = ℤ.pos req.game_id

abbrev pub stored_game : List Write → Option GameInfo
stored_game [] = none
stored_game (Write.save_game game ∷ ws) = some game
stored_game (w ∷ ws) = stored_game ws

-- A game that a call stores is the developer's: a new draft, or one that was found, with its status
-- moved along an arrow of the call.
abbrev pub Stored :
    {Decimal : Type 0} → ConsoleDb → String → Call Decimal → Option GameInfo → Type 0
Stored db dev_id call none = Unit
Stored db dev_id call (some game) =
    let developer = loaded no_developer (db.developer dev_id) in
    let before = loaded no_info (db.game_info (game_id call)) in
    (developer.id ≢ 0)
    × (game.dev_id ≡ developer.id)
    × (((game_id call ≡ ℤ.pos 0) × (game.id ≡ 0) × (game.status ≡ GameStatus.draft))
        ⊎ ((before.id ≢ 0)
            × (game.id ≡ before.id)
            × (game.dev_id ≡ before.dev_id)
            × Moves call before.status game.status))

module _ {Decimal : Type 0} (ops : DecimalOps Decimal) (db : ConsoleDb) (clock : Clock) where
  unfoldable pub run : String → Call Decimal → Outcome (Unit {0})
  unfolding update_game testing_start testing_finish submit_online_audit save_setting delete_setting
  run dev_id (Call.update req) = update_game db clock (some dev_id) (some req)
  run dev_id (Call.start req) = testing_start db clock (some dev_id) (some req)
  run dev_id (Call.finish req) = testing_finish db clock (some dev_id) (some req)
  run dev_id (Call.audit req) = submit_online_audit db clock (some dev_id) (some req)
  run dev_id (Call.save req) = save_setting db clock ops (some dev_id) (some req)
  run dev_id (Call.remove req) = delete_setting db clock (some dev_id) (some req)

  -- Whatever the database answers, a call of the console stores only a game of the developer who
  -- is logged in: a new draft, or the game that was found, with its id and its developer, and
  -- with its status moved the way the call is for.
  pub run-Stored :
      (dev_id : String) (call : Call Decimal)
      → Stored db dev_id call (stored_game (run dev_id call).writes)
  unfolding run
  run-Stored dev_id (Call.update req) =
      ground (arith, eq_iff (loaded no_info (db.game_info req.id)).status GameStatus.active)
  run-Stored dev_id (Call.start req) =
      ground
        (arith, eq_iff (loaded no_info (db.game_info (ℤ.pos req.game_id))).status GameStatus.draft)
  run-Stored dev_id (Call.finish req) =
      ground (
        arith,
        eq_iff (loaded no_info (db.game_info (ℤ.pos req.game_id))).status GameStatus.testing,
      )
  run-Stored dev_id (Call.audit req) =
      ground
        (arith, eq_iff (loaded no_info (db.game_info (ℤ.pos req.game_id))).status GameStatus.tested)
  run-Stored dev_id (Call.save req) =
      ground
        (arith, eq_iff (loaded no_info (db.game_info (ℤ.pos req.game_id))).status GameStatus.active)
  run-Stored dev_id (Call.remove req) = ground (arith)

-- A call by which some developer stores the game `a` as the game `b`, whatever the rest of the
-- database holds.
pub data ◌↝◌ : GameInfo → GameInfo → Type 1 where
  call :
      {Decimal : Type 0} (ops : DecimalOps Decimal) (db : ConsoleDb) (clock : Clock)
      (dev_id : String) (c : Call Decimal) {a b : GameInfo}
      → db.game_info (game_id c) ≡ Query.found a
      → b.id ≢ 0
      → stored_game (run ops db clock dev_id c).writes ≡ some b
      → a ↝ b

infix 40 ◌↝◌ ◌↝*◌
pub data ◌↝*◌ : GameInfo → GameInfo → Type 1 where
  here : {a : GameInfo} → a ↝* a
  then : {a b c : GameInfo} → a ↝ b → b ↝* c → a ↝* c

-- What a call keeps of a game.
abbrev pub Kept : GameInfo → GameInfo → Type 0
Kept a b =
    (b.id ≡ a.id)
    × (b.dev_id ≡ a.dev_id)
    × (b.status ≡ GameStatus.active → a.status ≡ GameStatus.active)
    × (b.status ≡ GameStatus.waiting_online → a.status ≡ GameStatus.waiting_online)

-- The statuses that a call moves a game to are neither of the two.
apart : (s t : String) → (str_eq s t ≡ false) → s ≢ t
apart s t e = ground (arith, eq_iff s t)

apart_statuses :
    (GameStatus.testing ≢ GameStatus.active)
    × (GameStatus.testing ≢ GameStatus.waiting_online)
    × (GameStatus.tested ≢ GameStatus.active)
    × (GameStatus.tested ≢ GameStatus.waiting_online)
    × (GameStatus.pending_approve ≢ GameStatus.active)
    × (GameStatus.pending_approve ≢ GameStatus.waiting_online)
apart_statuses =
    (apart _ _ refl, apart _ _ refl, apart _ _ refl, apart _ _ refl, apart _ _ refl, apart _ _ refl)

Moves-Kept :
    {Decimal : Type 0} (c : Call Decimal) (s t : String)
    → Moves c s t
    → (t ≡ GameStatus.active → s ≡ GameStatus.active)
      × (t ≡ GameStatus.waiting_online → s ≡ GameStatus.waiting_online)
Moves-Kept (Call.update req) s t m = ground (arith, apart_statuses)
Moves-Kept (Call.start req) s t m = ground (arith, apart_statuses)
Moves-Kept (Call.finish req) s t m = ground (arith, apart_statuses)
Moves-Kept (Call.audit req) s t m = ground (arith, apart_statuses)
Moves-Kept (Call.save req) s t m = ground (arith, apart_statuses)
Moves-Kept (Call.remove req) s t m = ground (arith, apart_statuses)

Stored-Kept :
    {Decimal : Type 0} (db : ConsoleDb) (dev_id : String) (c : Call Decimal) (a b : GameInfo)
    → db.game_info (game_id c) ≡ Query.found a
    → b.id ≢ 0
    → Stored db dev_id c (some b)
    → Kept a b
Stored-Kept db dev_id c a b found known (_, _, inl (_, new, _)) = absurd (known new)
Stored-Kept db dev_id c a b found known (_, _, inr (_, same, owner, m)) =
    ground (arith, Moves-Kept c (loaded no_info (db.game_info (game_id c))).status b.status m)

step-Kept : {a b : GameInfo} → a ↝ b → Kept a b
step-Kept (call ops db clock dev_id c {a} {b} found known stored) =
    Stored-Kept db dev_id c a b found known
      (subst (Stored db dev_id c) stored (run-Stored ops db clock dev_id c))

-- However many calls of the console, by whichever developers, have stored a game, each finding it
-- as the one before has stored it, and whatever else the database answered: the game has kept its
-- id and its developer, and it is active, or waits to go online, only if it was so at first.
pub path-Kept : {a b : GameInfo} → a ↝* b → Kept a b
path-Kept here = (refl, refl, (λ e. e), λ e. e)
path-Kept (then s p) = ground (arith, step-Kept s, path-Kept p)
