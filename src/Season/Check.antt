-- ===== src/Season/Check.antt =====
-- `CheckSeasonJoined`, api/http/controller/auth/user.go: whether a user is in a season.
use tradeverse_api.Prelude.{
  ℕ, ◌<◌, String, len, false, true, ◌≡◌, ◌≢◌, ◌⊎◌, Option, none, some, [], ◌∷◌, arith, ltb, ◌==◌,
  Exit, next, exit, ◌>>=◌, ◌>>◌, return_if, answer,
}
use tradeverse_api.Codes
use tradeverse_api.Web.{Clock, Payload, Response, failure, success}
use tradeverse_api.Orm.{Query, Created}
use tradeverse_api.Model.SeasonStatus
use tradeverse_api.Model.Game.{SeasonInfo, SeasonUser, no_season_user}
use tradeverse_api.Season.{SeasonDb, JoinSeasonReq, join_season, parse_uint}
use tradeverse_api.Season.Runs.{join_admits}

module _ (season_user : ℕ → String → Query SeasonUser) (clock : Clock) where
  found_membership : Query SeasonUser → Exit Response SeasonUser
  found_membership (Query.found u) = next u
  found_membership Query.not_found = next no_season_user
  found_membership Query.failed = exit (failure clock Codes.unknown "query season user failed")

  parsed_season_id : Option ℕ → Exit Response ℕ
  parsed_season_id none = exit (failure clock Codes.bad_params "invalid season_id")
  parsed_season_id (some n) = next n

  member_login : Option String → Exit Response String
  member_login none = exit (failure clock Codes.security "please login first")
  member_login (some main_id) = next main_id

  pub check_season_joined : Option String → String → Response
  unfolding found_membership parsed_season_id member_login
  check_season_joined login season_id_str = answer do
    main_id ← member_login login
    return_if (len season_id_str == 0) (failure clock Codes.bad_params "season_id required")
    season_id ← parsed_season_id (parse_uint season_id_str)
    u ← found_membership (season_user season_id main_id)
    next (success clock (Payload.membership (ltb 0 u.id) u.join_time))

-- If the season is active, has no limit or fewer users than its limit, the user is not in it yet,
-- the user's id is a number and a row can be stored: once the database finds the row that
-- `join_season` has stored, `check_season_joined` tells the user that they are in, since the time of
-- the request.
pub join_season_checked :
    (db : SeasonDb) (later : ℕ → String → Query SeasonUser) (clock clock' : Clock)
    (main_id id_str : String) (req : JoinSeasonReq) (season : SeasonInfo) (n count key : ℕ)
    → db.season_info req.season_id ≡ Query.found season
    → season.id ≢ 0
    → season.status ≡ SeasonStatus.active
    → db.count_joined req.season_id ≡ some count
    → (season.limit_user_count ≡ 0) ⊎ (count < season.limit_user_count)
    → db.season_user req.season_id main_id ≡ Query.not_found
    → parse_uint main_id ≡ some n
    → ((u : SeasonUser) → db.insert_season_user u ≡ Created.created key)
    → key ≢ 0
    → len id_str ≢ 0
    → parse_uint id_str ≡ some req.season_id
    → ((u : SeasonUser)
        → (join_season db clock false (some main_id) (some req)).writes ≡ u ∷ []
        → later req.season_id main_id ≡ Query.found u)
    → check_season_joined later clock' (some main_id) id_str
      ≡ success clock' (Payload.membership true (clock 1))
unfolding check_season_joined
join_season_checked db later clock clock' main_id id_str req season n count key found known active
      counted room fresh parsed stored keyed given numbered kept =
    let row : SeasonUser = record {
      id = key;
      season_id = req.season_id;
      main_id = n;
      join_time = clock 1;
    } in
    ground (
      arith,
      kept row (
          join_admits db clock main_id req season n count key found known active counted room fresh
            parsed stored),
    )
