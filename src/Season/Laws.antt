-- ===== src/Season/Laws.antt =====
-- What `join_season` adds to the rows of a season, when no other request interleaves.
use tradeverse_api.Prelude.{
  ℕ, ◌+◌, ◌≤◌, ◌<◌, String, Bool, ◌&&◌, ◌≡◌, ◌≢◌, Option, none, some, List, [], ◌∷◌, ◌++◌, arith,
  ◌==◌, if◌then◌else◌,
}
use tradeverse_api.Web.{Clock}
use tradeverse_api.Orm.{Query}
use tradeverse_api.Model.Game.{SeasonInfo, SeasonUser}
use tradeverse_api.Season.{SeasonDb, JoinSeasonReq, join_season, parse_uint}

-- The number of rows that pass a test.
abbrev pub count : (SeasonUser → Bool) → List SeasonUser → ℕ
count p [] = 0
count p (u ∷ us) = (if p u then 1 else 0) + count p us

abbrev pub in_season : ℕ → SeasonUser → Bool
in_season s u = u.season_id == s

abbrev pub has_joined : ℕ → ℕ → SeasonUser → Bool
has_joined s n u = u.season_id == s && u.main_id == n

-- `Count` counts the rows; `First` finds a row with a primary key, or there is none.
abbrev pub CountAgrees : Option ℕ → ℕ → Type 0
CountAgrees none n = Unit
CountAgrees (some k) n = k ≡ n

abbrev pub RowAgrees : Query SeasonUser → ℕ → Type 0
RowAgrees (Query.found u) n = u.id ≢ 0
RowAgrees Query.not_found n = n ≡ 0
RowAgrees Query.failed n = Unit

module _ (db : SeasonDb) (clock : Clock) (held : Bool) (req : JoinSeasonReq)
    (rows : List SeasonUser) where
  -- If the season has a limit, the count is that of the rows and the limit is not exceeded before
  -- `join_season`, it is not exceeded after it.
  pub join_limit :
      (login : Option String) (season : SeasonInfo)
      → db.season_info req.season_id ≡ Query.found season
      → 0 < season.limit_user_count
      → CountAgrees (db.count_joined req.season_id) (count (in_season req.season_id) rows)
      → count (in_season req.season_id) rows ≤ season.limit_user_count
      → count
          (in_season req.season_id)
          ((join_season db clock held login (some req)).writes ++ rows)
        ≤ season.limit_user_count
  unfolding join_season
  join_limit login season es limited agrees fits = ground arith

  -- If the user's id is a number, the search finds a row of the user and the season, with a primary
  -- key, whenever there is one, and there is at most one before `join_season`, then there is at
  -- most one after it.
  pub join_once :
      (main_id : String) (n : ℕ)
      → parse_uint main_id ≡ some n
      → RowAgrees (db.season_user req.season_id main_id) (count (has_joined req.season_id n) rows)
      → count (has_joined req.season_id n) rows ≤ 1
      → count
          (has_joined req.season_id n)
          ((join_season db clock held (some main_id) (some req)).writes ++ rows)
        ≤ 1
  unfolding join_season
  join_once main_id n en agrees one = ground arith
