-- ===== src/Orm.antt =====
-- How the code sees GORM (gorm.io/gorm): each call is an argument of the model, with the
-- arguments that the code passes, and its outcome is one of these. Nothing is assumed of what a
-- call returns: it may fail at any time, and what it finds may change from call to call.
use tradeverse_api.Prelude.{ℕ, Bool, ◌≡◌, refl, ◌⊎◌, inl, inr}

-- `First(&row).Error`
pub data Query (A : Type 0) : Type 0 where
  found : A → Query A
  -- `gorm.ErrRecordNotFound`
  not_found : Query A
  -- any other error
  failed : Query A

-- `Create(&row).Error`, with the primary key that it puts into the row
pub data Created : Type 0 where
  created : ℕ → Created
  -- `isDup(err)`: MySQL 1062, a unique key (api/oauth/jwt_middleware.go)
  duplicate : Created
  refused : Created

-- The row as `First(&row)` leaves it, where the code does not read the error: `before` is what the
-- variable held.
abbrev pub loaded : {A : Type 0} → A → Query A → A
loaded before (Query.found a) = a
loaded before Query.not_found = before
loaded before Query.failed = before

-- `Save(&row).Error == nil`, `Commit().Error == nil`
abbrev pub Saved : Type 0
Saved = Bool

-- To split on a query and keep the equation.
pub Query-cases :
    {A : Type 0} (q : Query A)
    → ((a : A) × (q ≡ Query.found a)) ⊎ (q ≡ Query.not_found) ⊎ (q ≡ Query.failed)
Query-cases (Query.found a) = inl (a, refl)
Query-cases Query.not_found = inr (inl refl)
Query-cases Query.failed = inr (inr refl)

pub Created-cases :
    (c : Created)
    → ((i : ℕ) × (c ≡ Created.created i)) ⊎ (c ≡ Created.duplicate) ⊎ (c ≡ Created.refused)
Created-cases (Created.created i) = inl (i, refl)
Created-cases Created.duplicate = inr (inl refl)
Created-cases Created.refused = inr (inr refl)
