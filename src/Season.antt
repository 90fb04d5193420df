-- ===== src/Season.antt =====
-- `JoinSeason`, api/http/controller/auth/user.go, and the lock map that it shares with
-- `BalanceWithdrawRequest` (in `Season.Locks`). Here `held` says that `LoadOrStore` found the key.
use tradeverse_api.Prelude.{
  ℕ, ◌+◌, ◌-◌, ◌*◌, String, Bool, true, false, not, ◌&&◌, List, [], ◌∷◌, ltb, leb, ◌==◌, str_eq,
  if◌then◌else◌, Option, none, some, Exit, next, exit, ◌>>=◌, ◌>>◌, return_if, answer, codes,
}
use tradeverse_api.Prelude.Words.{u64_mod}
use tradeverse_api.Codes
use tradeverse_api.Web.{Clock, Time, Payload, Response, failure, unix}
use tradeverse_api.Orm.{Query, Created, loaded}
use tradeverse_api.Model.SeasonStatus
use tradeverse_api.Model.Game.{SeasonInfo, SeasonUser, no_season, no_season_user}
pub mod Locks
pub mod Laws
pub mod Runs
pub mod Check
mod Tests

pub record SeasonDb : Type 0 where
  -- id = ?
  pub season_info : ℕ → Query SeasonInfo
  -- `Count` of the rows with season_id = ?
  pub count_joined : ℕ → Option ℕ
  -- season_id = ? and main_id = ?
  pub season_user : ℕ → String → Query SeasonUser
  -- `Save` of a row with no primary key inserts it
  pub insert_season_user : SeasonUser → Created

pub record JoinSeasonReq : Type 0 where
  pub season_id : ℕ
  pub season_code : String

-- The rows are those inserted.
pub record Outcome : Type 0 where
  pub response : Response
  pub writes : List SeasonUser

abbrev pub refuse : Clock → ℕ → String → Outcome
refuse clock c m = record { response = failure clock c m; writes = [] }

-- The handler never sets the code and the message of its response, so they stay zero.
abbrev pub joined : Clock → List SeasonUser → Outcome
joined clock ws = record {
  response = record {
    code = Codes.success;
    msg = "";
    timestamp = unix (clock 0);
    body = Payload.nothing;
  };
  writes = ws;
}

is_digit : ℕ → Bool
is_digit c = leb b'0' c && leb c b'9'

digits_from : ℕ → List ℕ → Option ℕ
unfolding is_digit
digits_from acc [] = if ltb acc u64_mod then some acc else none
digits_from acc (c ∷ cs) =
    let rest = digits_from (acc * 10 + (c - b'0')) cs in if is_digit c then rest else none

-- `strconv.ParseUint(s, 10, 64)`
unfoldable pub parse_uint : String → Option ℕ
unfolding digits_from
parse_uint s = elim (codes s) [ [] ↦ none | c ∷ cs ↦ digits_from 0 (c ∷ cs) ]

module _ (db : SeasonDb) (clock : Clock) where
  bound_request : Option JoinSeasonReq → Exit Outcome JoinSeasonReq
  bound_request none = exit (refuse clock Codes.bad_params "param error")
  bound_request (some req) = next req

  logged_in : Option String → Exit Outcome String
  logged_in none = exit (refuse clock Codes.security "please login first")
  logged_in (some main_id) = next main_id

  -- The season, which must be active.
  check_season : JoinSeasonReq → Exit Outcome SeasonInfo
  check_season req = do
    let season = loaded no_season (db.season_info req.season_id)
    return_if (season.id == 0) (refuse clock Codes.obj_not_found "season not found")
    return_if (not (str_eq season.status SeasonStatus.active))
        (refuse clock Codes.bad_params "season not active for join")
    next season

  room_left : SeasonInfo → Option ℕ → Exit Outcome (Unit {0})
  room_left season none =
      exit (refuse clock Codes.unknown "query season user failed, please try again later")
  room_left season (some n) =
      return_if (leb season.limit_user_count n)
        (refuse clock Codes.bad_params "season user count limit reached")

  -- A season with a limit counts its users.
  check_limit : JoinSeasonReq → SeasonInfo → Exit Outcome (Unit {0})
  unfolding room_left
  check_limit req season =
      if ltb 0 season.limit_user_count
      then room_left season (db.count_joined req.season_id)
      else next tt

  found_user : Query SeasonUser → Exit Outcome SeasonUser
  found_user (Query.found u) = next u
  found_user Query.not_found = next no_season_user
  found_user Query.failed =
      exit (refuse clock Codes.unknown "query season user failed, please try again later")

  parsed_main_id : Option ℕ → Exit Outcome ℕ
  parsed_main_id none = exit (refuse clock Codes.bad_params "unexpected user lookup error")
  parsed_main_id (some n) = next n

  inserted : SeasonUser → Created → Outcome
  inserted u (Created.created i) = joined clock (record u { id = i } ∷ [])
  inserted u Created.duplicate =
      refuse clock Codes.unknown "save season user failed, please try again later"
  inserted u Created.refused =
      refuse clock Codes.unknown "save season user failed, please try again later"

  -- A user who is in the season already is not inserted again.
  join : String → JoinSeasonReq → SeasonUser → Exit Outcome Outcome
  unfolding parsed_main_id inserted
  join main_id req u =
      if u.id == 0
      then (do
        n ← parsed_main_id (parse_uint main_id)
        let u' = record u { season_id = req.season_id; main_id = n; join_time = clock 1 }
        next (inserted u' (db.insert_season_user u')))
      else next (joined clock [])

  pub join_season : Bool → Option String → Option JoinSeasonReq → Outcome
  unfolding bound_request logged_in check_season check_limit found_user join
  join_season held login body = answer do
    req ← bound_request body
    main_id ← logged_in login
    season ← check_season req
    return_if held (refuse clock Codes.processing "operating, please do not repeat the operation")
    check_limit req season
    u ← found_user (db.season_user req.season_id main_id)
    join main_id req u
