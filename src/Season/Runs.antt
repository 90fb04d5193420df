-- ===== src/Season/Runs.antt =====
-- A run of `JoinSeason`, api/http/controller/auth/user.go, for a user who is not in the season yet.
use tradeverse_api.Prelude.{ℕ, ◌<◌, String, false, ◌≡◌, ◌≢◌, ◌⊎◌, some, [], ◌∷◌, arith, eq_iff}
use tradeverse_api.Web.{Clock}
use tradeverse_api.Orm.{Query, Created}
use tradeverse_api.Model.SeasonStatus
use tradeverse_api.Model.Game.{SeasonInfo, SeasonUser, no_season_user}
use tradeverse_api.Season.{SeasonDb, JoinSeasonReq, join_season, parse_uint}

module _ (db : SeasonDb) (clock : Clock) (main_id : String) (req : JoinSeasonReq)
    (season : SeasonInfo) (n count key : ℕ) where
  -- If the season is active, has no limit or fewer users than its limit, the user is not in it yet,
  -- the user's id is a number and the row can be stored: `join_season` stores one row, of this user
  -- and season, with the time of the request.
  pub join_admits :
      db.season_info req.season_id ≡ Query.found season
      → season.id ≢ 0
      → season.status ≡ SeasonStatus.active
      → db.count_joined req.season_id ≡ some count
      → (season.limit_user_count ≡ 0) ⊎ (count < season.limit_user_count)
      → db.season_user req.season_id main_id ≡ Query.not_found
      → parse_uint main_id ≡ some n
      → ((u : SeasonUser) → db.insert_season_user u ≡ Created.created key)
      → (join_season db clock false (some main_id) (some req)).writes
        ≡ record { id = key; season_id = req.season_id; main_id = n; join_time = clock 1 } ∷ []
  unfolding join_season
  join_admits found known active counted room fresh parsed stored = ground (
    arith,
    eq_iff season.status SeasonStatus.active,
    stored (record no_season_user { season_id = req.season_id; main_id = n; join_time = clock 1 }),
  )
