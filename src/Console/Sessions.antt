-- ===== src/Console/Sessions.antt =====
-- `GameSessionList`: the sessions of the games of a developer, page by page. The two queries are
-- arguments; the page is computed here, with the arithmetic of Go's `int`.
use tradeverse_api.Prelude.{
  ℕ, ◌*◌, ◌-◌, String, len, List, [], ◌==◌, if◌then◌else◌, Option, none, some, next, ◌>>=◌, answer,
}
use tradeverse_api.Prelude.Integers.{ℤ, above, int64}
use tradeverse_api.Codes
use tradeverse_api.Web.{Clock}
use tradeverse_api.Orm.{Query}
use tradeverse_api.Model.Game.{GameSession}
use tradeverse_api.Console.{
  ConsoleDb, Outcome, refuse, succeed, bound_request, logged_in, known_developer,
}

pub record GameSessionListReq : Type 0 where
  pub page : ℤ
  pub page_size : ℤ
  pub game_id : ℤ
  pub status : ℤ
  pub testing : Option ℤ
  pub start_date : String
  pub end_date : String

-- The conditions of the query; `none` is a condition that is not there.
pub record SessionFilter : Type 0 where
  pub dev_id : String
  pub game_id : Option ℤ
  pub status : Option ℤ
  pub testing : Option ℤ
  pub start_date : Option String
  pub end_date : Option String

pub record SessionPage (Decimal : Type 0) : Type 0 where
  pub list : List (GameSession Decimal)
  pub total : ℤ
  pub page : ℕ
  pub page_size : ℕ

pub record SessionDb (Decimal : Type 0) : Type 0 where
  pub count : SessionFilter → ℤ
  -- the second `Find` of the query, after `Offset` and `Limit`, whose rows replace those of the first
  pub find : SessionFilter → ℤ → ℤ → Query (List (GameSession Decimal))

-- `pn` and `pageSize`: a number that is not positive is not taken.
abbrev pub positive_or : ℕ → ℤ → ℕ
positive_or d (ℤ.pos n) = if above (ℤ.pos n) 0 then n else d
positive_or d (ℤ.negsuc n) = d

abbrev pub when_positive : ℤ → Option ℤ
when_positive i = if above i 0 then some i else none

abbrev pub when_given : String → Option String
when_given s = if len s == 0 then none else some s

unfoldable pub session_filter : String → GameSessionListReq → SessionFilter
session_filter dev_id req = record {
  dev_id = dev_id;
  game_id = when_positive req.game_id;
  status = when_positive req.status;
  testing = req.testing;
  start_date = when_given req.start_date;
  end_date = when_given req.end_date;
}

-- `(pn - 1) * pageSize`, for a page number from 1 on.
abbrev pub page_offset : ℕ → ℕ → ℤ
page_offset page size = int64 ((page - 1) * size)

module _ {Decimal : Type 0} (db : ConsoleDb) (sessions : SessionDb Decimal) (clock : Clock) where
  found_page :
      SessionFilter → ℕ → ℕ → Query (List (GameSession Decimal)) → Outcome (SessionPage Decimal)
  found_page filter page size (Query.found rows) =
      let found : SessionPage Decimal = record {
        list = rows;
        total = sessions.count filter;
        page = page;
        page_size = size;
      } in
      succeed clock (some found) []
  found_page filter page size _ = refuse clock Codes.unknown "query failed"

  unfoldable pub game_session_list :
      Option String → Option GameSessionListReq → Outcome (SessionPage Decimal)
  unfolding bound_request logged_in known_developer session_filter found_page
  game_session_list login body = answer do
    req ← bound_request db clock body
    dev_id ← logged_in db clock login
    let page = positive_or 1 req.page
    let size = positive_or 20 req.page_size
    developer ← known_developer db clock dev_id
    let filter = session_filter dev_id req
    next (found_page filter page size (sessions.find filter (page_offset page size) (ℤ.pos size)))
