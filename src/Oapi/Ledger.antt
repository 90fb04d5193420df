-- ===== src/Oapi/Ledger.antt =====
-- The ledger that the handlers of api/oauth/jwt_middleware.go share, as an abstract state: the
-- balance row of each user and the account flows. It is a specification and models no code; the
-- durable writes of a handler act on it, and `Reads` says which rows the locked reads return.
use tradeverse_api.Prelude.{
  ℕ, ◌+◌, ◌<◌, ◌≡◌, Bool, ◌&&◌, List, [], ◌∷◌, Option, none, some, ◌==◌, if◌then◌else◌,
}
use tradeverse_api.Prelude.Words.{u64_mod}
use tradeverse_api.Orm.{Query, Created}
use tradeverse_api.Model.FlowKind
use tradeverse_api.Model.FlowStatus
use tradeverse_api.Model.Flow.{AccountFlow, AccountBalance}
use tradeverse_api.Oapi.Calls.{GameDb, Write}
pub mod Sums

pub record Ledger : Type 0 where
  pub balance : ℕ → Option AccountBalance
  pub flows : List AccountFlow

-- The row with a primary key.
abbrev pub find : ℕ → List AccountFlow → Option AccountFlow
find i [] = none
find i (f ∷ fs) = if f.id == i then some f else find i fs

abbrev pub replace : AccountFlow → List AccountFlow → List AccountFlow
replace g [] = []
replace g (f ∷ fs) = if f.id == g.id then g ∷ fs else f ∷ replace g fs

abbrev pub put : AccountBalance → Ledger → Ledger
put b l = record l { balance = λ u. if u == b.main_id then some b else l.balance u }

abbrev pub apply : {Decimal : Type 0} → Write Decimal → Ledger → Ledger
apply (Write.create_balance b) l = put b l
apply (Write.save_balance b) l = put b l
apply (Write.create_flow f) l = record l { flows = f ∷ l.flows }
apply (Write.save_flow f) l = record l { flows = replace f l.flows }
apply (Write.create_session s) l = l
apply (Write.save_session s) l = l

abbrev pub apply_all : {Decimal : Type 0} → List (Write Decimal) → Ledger → Ledger
apply_all [] l = l
apply_all (w ∷ ws) l = apply_all ws (apply w l)

abbrev pub frozen_of : Option AccountBalance → ℕ
frozen_of none = 0
frozen_of (some b) = b.frozen

-- What a user owns on the platform: the available and the frozen part.
abbrev pub funds_of : Option AccountBalance → ℕ
funds_of none = 0
funds_of (some b) = b.available + b.frozen

abbrev pub is_pending : ℕ → AccountFlow → Bool
is_pending u f = f.main_id == u && (f.biz_type == FlowKind.freeze && f.status == FlowStatus.pending)

-- The amount that a flow keeps frozen for a user.
abbrev pub weight : ℕ → AccountFlow → ℕ
weight u f = if is_pending u f then f.amount else 0

abbrev pub is_spend : ℕ → AccountFlow → Bool
is_spend u f = f.main_id == u && f.biz_type == FlowKind.spend

-- The amount that a flow has spent of a user's money.
abbrev pub cost : ℕ → AccountFlow → ℕ
cost u f = if is_spend u f then f.amount else 0

abbrev pub total : (AccountFlow → ℕ) → List AccountFlow → ℕ
total w [] = 0
total w (f ∷ fs) = w f + total w fs

abbrev pub pending : ℕ → List AccountFlow → ℕ
pending u = total (weight u)

abbrev pub spent : ℕ → List AccountFlow → ℕ
spent u = total (cost u)

-- Each user's frozen money is the sum of the user's pending freezes, and what a user owns fits in
-- a uint64.
pub record IsBacked (l : Ledger) : Type 0 where
  pub backed : (u : ℕ) → frozen_of (l.balance u) ≡ pending u l.flows
  pub fits : (u : ℕ) → funds_of (l.balance u) < u64_mod

abbrev pub BalanceAgrees : ℕ → Query AccountBalance → Option AccountBalance → Type 0
BalanceAgrees u (Query.found b) o = (o ≡ some b) × (b.main_id ≡ u)
BalanceAgrees u Query.not_found o = o ≡ none
BalanceAgrees u Query.failed o = Unit

abbrev pub FlowAgrees : Query AccountFlow → Option AccountFlow → Type 0
FlowAgrees (Query.found f) o = o ≡ some f
FlowAgrees Query.not_found o = Unit
FlowAgrees Query.failed o = Unit

-- A found row satisfies its WHERE clause on the key, the type and the status.
abbrev pub FlowMatches : ℕ → ℕ → ℕ → Query AccountFlow → Type 0
FlowMatches i k t (Query.found f) = (f.id ≡ i) × (f.biz_type ≡ k) × (f.status ≡ t)
FlowMatches i k t Query.not_found = Unit
FlowMatches i k t Query.failed = Unit

abbrev pub IsFresh : Created → List AccountFlow → Type 0
IsFresh (Created.created i) fs = find i fs ≡ none
IsFresh Created.duplicate fs = Unit
IsFresh Created.refused fs = Unit

-- The reads of a transaction return the rows of the ledger, a new primary key is unused.
pub record Reads {Decimal : Type 0} (db : GameDb Decimal) (l : Ledger) : Type 0 where
  pub balances : (u : ℕ) → BalanceAgrees u (db.locked_balance u 0) (l.balance u)
  pub flow : (i : ℕ) → FlowAgrees (db.account_flow i) (find i l.flows)
  pub locked : (i k t : ℕ) (s : _) → FlowAgrees (db.locked_flow i s k t) (find i l.flows)
  pub matching : (i k t : ℕ) (s : _) → FlowMatches i k t (db.locked_flow i s k t)
  pub fresh : (f : AccountFlow) → IsFresh (db.create_flow f) l.flows
