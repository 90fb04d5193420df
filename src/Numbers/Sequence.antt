-- ===== src/Numbers/Sequence.antt =====
-- The numbers that `nextSeq` of system/rand.go gives out on one day.
use tradeverse_api.Prelude.{
  ℕ, zero, suc, ◌+◌, ◌≤◌, List, [], ◌∷◌, Option, none, some, length, ◌≡◌, refl, arith, ap, ◌⊎◌, inl,
  inr,
}
use tradeverse_api.Numbers.{Calls, next_seq, draws}

-- The numbers from `n` on, `k` of them.
abbrev pub count_from : ℕ → ℕ → List ℕ
count_from n zero = []
count_from n (suc k) = n ∷ count_from (n + 1) k

-- Where the day's row stands; a day without a row has not begun.
abbrev pub start : Option ℕ → ℕ
start none = 0
start (some last_seq) = last_seq

-- A call either gives nothing and leaves the row, or gives the row's number and moves it on.
next_seq_cases :
    (row : Option ℕ) (c : Calls)
    → (((next_seq row c).0 ≡ none) × ((next_seq row c).1 ≡ row))
      ⊎ (((next_seq row c).0 ≡ some (start row))
          × ((next_seq row c).1 ≡ some (start row + 1))
          × (start row + 1 ≤ 9999))
unfolding next_seq
next_seq_cases row c = ground arith

draws_count :
    (row : Option ℕ) (cs : List Calls)
    → draws row cs ≡ count_from (start row) (length (draws row cs))
unfolding draws
draws_count row [] = refl
draws_count row (c ∷ cs) = elim (next_seq_cases row c) [
  | inl (n, r) ↦ rw (n, r) (draws_count row cs)
  | inr (n, r, h) ↦ rw (n, r) (ap (λ s. start row ∷ s) (draws_count (some (start row + 1)) cs))
]

draws_bound :
    (row : Option ℕ) (cs : List Calls) → start row ≤ 9999 → start row + length (draws row cs) ≤ 9999
unfolding draws
draws_bound row [] h = omega (arith, h)
draws_bound row (c ∷ cs) h = elim (next_seq_cases row c) [
  | inl (n, r) ↦ rw (n, r) (draws_bound row cs h)
  | inr (n, r, h') ↦ rw (n, r) (omega (arith, draws_bound (some (start row + 1)) cs h'))
]

-- Whichever of its calls fail, a day gives out 0, 1, 2 and so on without a gap and without giving a
-- number twice, and at most 9999 numbers.
pub draws_in_order :
    (cs : List Calls)
    → (draws none cs ≡ count_from 0 (length (draws none cs))) × (length (draws none cs) ≤ 9999)
draws_in_order cs = (draws_count none cs, omega (arith, draws_bound none cs (ground arith)))
