-- ===== src/Season/Locks.antt =====
-- The lock map `userSeasonLock` of api/http/controller/auth/user.go, which `JoinSeason` and
-- `BalanceWithdrawRequest` use alike: `LoadOrStore` on entry, and a deferred `Delete` that is set
-- up
-- before the answer of `LoadOrStore` is looked at. Only the presence of a key matters.
use tradeverse_api.Prelude.{
  ℕ, String, Bool, true, false, ◌≡◌, str_eq, if◌then◌else◌, eq_iff, arith, suc, zero, refl, ◌+◌,
  ◌≤◌,
}

abbrev pub LockMap : Type 0
LockMap = String → Bool

-- `m.LoadOrStore(k, struct{}{})`
load_or_store : String → LockMap → Bool × LockMap
load_or_store k m = (m k, λ j. if str_eq j k then true else m j)

-- `m.Delete(k)`
delete : String → LockMap → LockMap
delete k m = λ j. if str_eq j k then false else m j

-- A request comes to the lock: whether it may go on, and the map once it has gone on or has
-- returned, which runs its deferred `Delete`.
unfoldable pub enter : String → LockMap → Bool × LockMap
unfolding load_or_store delete
enter k m =
    let (loaded, m') = load_or_store k m in if loaded then (false, delete k m') else (true, m')

-- A request that went on returns.
pub leave : String → LockMap → LockMap
unfolding delete
leave k m = delete k m

-- The requests that have gone on with the key and have not returned, and the map.
pub record Shared : Type 0 where
  pub locks : LockMap
  pub inside : ℕ

-- What can happen at one key: a request goes on, is turned away, or returns.
pub data Step (k : String) (s : Shared) : Shared → Type 0 where
  admit :
      (enter k s.locks).0 ≡ true
      → Step k s (record { locks = (enter k s.locks).1; inside = suc s.inside })
  turn_away :
      (enter k s.locks).0 ≡ false
      → Step k s (record { locks = (enter k s.locks).1; inside = s.inside })
  finish : (n : ℕ) → s.inside ≡ suc n → Step k s (record { locks = leave k s.locks; inside = n })

-- The number of requests turned away, after one more step.
abbrev pub turned : {k : String} {s t : Shared} → Step k s t → ℕ → ℕ
turned (admit _) n = n
turned (turn_away _) n = suc n
turned (finish _ _) n = n

-- Steps in a row, with the number of requests turned away.
pub data Runs (k : String) (s : Shared) : ℕ → Shared → Type 0 where
  here : Runs k s 0 s
  snoc : {n : ℕ} {t u : Shared} → Runs k s n t → (st : Step k t u) → Runs k s (turned st n) u

-- No request has come yet.
abbrev pub idle : Shared
idle = record { locks = λ j. false; inside = 0 }

occupied : Bool → ℕ
occupied true = 1
occupied false = 0

Step-bound :
    {k : String} {s t : Shared} (n : ℕ) (st : Step k s t)
    → s.inside ≤ n + occupied (s.locks k)
    → t.inside ≤ turned st n + occupied (t.locks k)
unfolding enter leave occupied
Step-bound {k = k} n (admit a) h = ground (arith, eq_iff k k)
Step-bound {k = k} n (turn_away a) h = ground (arith, eq_iff k k)
Step-bound {k = k} {s = s} n (finish m e) h = ground (arith, eq_iff k k)

Runs-bound :
    {k : String} {n : ℕ} {s : Shared} → Runs k idle n s → s.inside ≤ n + occupied (s.locks k)
unfolding occupied
Runs-bound here = omega arith
Runs-bound (snoc {n = n} r st) = Step-bound n st (Runs-bound r)

occupied-le : (b : Bool) → occupied b ≤ 1
unfolding occupied
occupied-le true = omega arith
occupied-le false = omega arith

-- From an idle map, whatever the order of the requests: while `n` requests have been turned away,
-- at
-- most `n + 1` are between their lock and their return. So one at a time if none is turned away.
pub inside_bound : {k : String} {n : ℕ} {s : Shared} → Runs k idle n s → s.inside ≤ n + 1
inside_bound {k = k} {n = n} {s = s} r = omega (arith, Runs-bound r, occupied-le (s.locks k))

crowd :
    (k : String) (n : ℕ) → (s : Shared) × Runs k idle n s × (s.inside ≡ suc n) × (s.locks k ≡ true)
unfolding enter
crowd k zero = (
  record { locks = (enter k idle.locks).1; inside = 1 },
  snoc here (admit refl),
  refl,
  ground (arith, eq_iff k k),
)
crowd k (suc n) =
    let (s, r, e, l) = crowd k n in
    let t : Shared = record { locks = (enter k s.locks).1; inside = s.inside } in
    (
      record { locks = (enter k t.locks).1; inside = suc t.inside },
      snoc (snoc r (turn_away (ground arith))) (admit (ground (arith, eq_iff k k))),
      ground arith,
      ground (arith, eq_iff k k),
    )

-- The bound is met at every key: each request that is turned away can let one more in, so that `n +
-- 1` requests are inside at once after `n` have been turned away.
pub inside_unbounded : (k : String) (n : ℕ) → (s : Shared) × Runs k idle n s × (s.inside ≡ n + 1)
inside_unbounded k n = let (s, r, e, l) = crowd k n in (s, r, omega arith)
