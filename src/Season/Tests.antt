-- ===== src/Season/Tests.antt =====
-- Runs of `join_season` and of the lock map.
use tradeverse_api.Season.Check.{check_season_joined, join_season_checked}
use tradeverse_api.Prelude.{
  ◌+◌, ◌≤◌, ◌≡◌, false, some, List, [], ◌∷◌, ◌++◌, arith, refl, inr, true, ap, sym, ◌∙◌,
}
use tradeverse_api.Web.{Clock, Payload, success}
use tradeverse_api.Orm.{Query, Created}
use tradeverse_api.Model.SeasonStatus
use tradeverse_api.Model.Game.{SeasonInfo, SeasonUser, no_season, no_season_user}
use tradeverse_api.Season.{SeasonDb, JoinSeasonReq, join_season, parse_uint}
use tradeverse_api.Season.Laws.{count, in_season, join_limit}
use tradeverse_api.Season.Locks.{Shared, Step, Runs, enter, idle, inside_unbounded}

abbrev clock : Clock
clock n = n

-- A season for two with one user in it.
abbrev season : SeasonInfo
season = record no_season { id = 3; status = SeasonStatus.active; limit_user_count = 2 }

abbrev rows : List SeasonUser
rows = record no_season_user { id = 1; season_id = 3; main_id = 6 } ∷ []

abbrev db : SeasonDb
db = record {
  season_info = λ i. Query.found season;
  count_joined = λ i. some 1;
  season_user = λ s u. Query.not_found;
  insert_season_user = λ u. Created.created 2;
}

abbrev req : JoinSeasonReq
req = record { season_id = 3; season_code = "" }

parse_uint_runs : parse_uint "7" ≡ some 7
unfolding parse_uint
parse_uint_runs = refl

season_id_runs : parse_uint "3" ≡ some 3
unfolding parse_uint
season_id_runs = refl

abbrev first_row : List SeasonUser → SeasonUser
first_row [] = no_season_user
first_row (u ∷ us) = u

join_runs :
    (join_season db clock false (some "7") (some req)).writes
    ≡ record { id = 2; season_id = 3; main_id = 7; join_time = 1 } ∷ []
unfolding join_season parse_uint
join_runs = ground arith

join_limit_example :
    count (in_season 3) ((join_season db clock false (some "7") (some req)).writes ++ rows) ≤ 2
join_limit_example =
    join_limit db clock false req rows (some "7") season refl (ground arith) refl (ground arith)

-- One request goes on and a second one is turned away.
abbrev entered : Shared
entered = record { locks = (enter "7" idle.locks).1; inside = 1 }

abbrev turned_away : Shared
turned_away = record { locks = (enter "7" entered.locks).1; inside = 1 }

two_requests : Runs "7" idle 1 turned_away
unfolding enter
two_requests = Runs.snoc (Runs.snoc Runs.here (Step.admit refl)) (Step.turn_away refl)

inside_unbounded_example : (s : Shared) × Runs "7" idle 2 s × (s.inside ≡ 2 + 1)
inside_unbounded_example = inside_unbounded "7" 2

join_season_checked_example :
    check_season_joined
      (λ s u. Query.found (record { id = 2; season_id = 3; main_id = 7; join_time = 1 }))
      clock
      (some "7")
      "3"
    ≡ success clock (Payload.membership true 1)
join_season_checked_example =
    join_season_checked db
      (λ s u. Query.found (record { id = 2; season_id = 3; main_id = 7; join_time = 1 })) clock
      clock "7" "3" req season 7 1 2 refl (ground arith) refl refl (inr (ground arith)) refl
      parse_uint_runs (λ u. refl) (ground arith) (ground arith) season_id_runs
      (λ u e. ap Query.found (ap first_row (sym join_runs ∙ e)))
