-- ===== src/Prelude/Exits.antt =====
-- A handler that may return early: `exit r` is a `return` with the answer `r`, `next a` goes on.
use mathlib.Core.Path.{◌≡◌, refl}
use mathlib.Core.Logic.{◌⊎◌, inl, inr}
use mathlib.Core.Bool.{Bool, true, false}

pub data Exit (R A : Type 0) : Type 0 where
  next : A → Exit R A
  exit : R → Exit R A

infixl 5 ◌>>=◌ ◌>>◌
abbrev pub ◌>>=◌ : {R A B : Type 0} → Exit R A → (A → Exit R B) → Exit R B
next a >>= f = f a
exit r >>= f = exit r

abbrev pub ◌>>◌ : {R B : Type 0} → Exit R (Unit {0}) → Exit R B → Exit R B
m >> k = m >>= λ _. k

-- `if c { return r }`
abbrev pub return_if : {R : Type 0} → Bool → R → Exit R (Unit {0})
return_if true r = exit r
return_if false r = next tt

-- What a handler that has run to its end answers.
abbrev pub answer : {R : Type 0} → Exit R R → R
answer (next r) = r
answer (exit r) = r

-- The predicate at every early return.
abbrev pub EveryExit : {R A : Type 0} → (R → Type 0) → Exit R A → Type 0
EveryExit P (next a) = Unit
EveryExit P (exit r) = P r

-- What holds of each early return of `m` and of each answer of the rest holds of the answer.
pub answer-bind :
    {R A : Type 0} (P : R → Type 0) (m : Exit R A) (f : A → Exit R R)
    → EveryExit P m
    → ((a : A) → m ≡ next a → P (answer (f a)))
    → P (answer (m >>= f))
answer-bind P (next a) f early late = late a refl
answer-bind P (exit r) f early late = early

-- To split on a computed exit and keep the equation.
pub Exit-cases : {R A : Type 0} (m : Exit R A) → ((r : R) × (m ≡ exit r)) ⊎ ((a : A) × (m ≡ next a))
Exit-cases (next a) = inr (a, refl)
Exit-cases (exit r) = inl (r, refl)
