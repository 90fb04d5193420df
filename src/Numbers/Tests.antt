-- ===== src/Numbers/Tests.antt =====
-- Numbers with a seed of 3, 1, 4 and a rotation by 2.
use tradeverse_api.Prelude.{
  ℕ, ◌≤◌, true, false, List, [], ◌∷◌, ◌%◌, none, some, length, ◌≡◌, refl, arith,
}
use tradeverse_api.Numbers.{Calls, draws, generate}
use tradeverse_api.Numbers.Sequence.{draws_in_order}
use tradeverse_api.Numbers.Uniqueness.{generate_apart}

abbrev fine : Calls
fine = record { take_fails = false; update = true; create = true; commit = true }

abbrev lost : Calls
lost = record { take_fails = false; update = true; create = true; commit = false }

-- The second call's commit fails.
abbrev day : List Calls
day = fine ∷ lost ∷ fine ∷ []

draws_in_order_example : (draws none day ≡ 0 ∷ 1 ∷ []) × (length (draws none day) ≤ 9999)
unfolding draws
draws_in_order_example = draws_in_order day

abbrev seed : List ℕ
seed = 3 ∷ 1 ∷ 4 ∷ []

-- Flag 1, 31 December 2025, sequence number 42, the random digits 705.
abbrev number : List ℕ
number = 1 ∷ 6 ∷ 0 ∷ 5 ∷ 8 ∷ 0 ∷ 5 ∷ 0 ∷ 0 ∷ 4 ∷ 2 ∷ 7 ∷ 0 ∷ 5 ∷ 6 ∷ []

generate_runs :
    generate seed (2 ∷ []) 1 (2025, 12, 31) (some 42) (some (7 ∷ 0 ∷ 5 ∷ [])) ≡ some number
unfolding generate
generate_runs = refl

abbrev flag : ℕ
flag = 1

abbrev year : ℕ
year = 2025

abbrev month : ℕ
month = 12

abbrev day31 : ℕ
day31 = 31

abbrev seq : ℕ
seq = 42

generate_apart_example :
    (flag ≡ flag) × ((year % 100 ≡ year % 100) × (month ≡ month) × (day31 ≡ day31)) × (seq ≡ seq)
generate_apart_example =
    generate_apart seed (2 ∷ []) flag flag year month day31 year month day31 seq seq
      (some (7 ∷ 0 ∷ 5 ∷ [])) (some (7 ∷ 0 ∷ 5 ∷ [])) number (ground arith) (ground arith)
      (ground arith) (ground arith) (ground arith) (ground arith) generate_runs generate_runs
