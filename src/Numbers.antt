-- ===== src/Numbers.antt =====
-- User numbers, system/rand.go: a flag, the obfuscated date, the day's sequence number, three random
-- digits and a Luhn digit. A digit is a number below 10; the time zone, the HMAC and the random
-- bytes are arguments.
use tradeverse_api.Prelude.{
  ℕ, zero, suc, ◌+◌, ◌-◌, ◌*◌, ◌/◌, ◌%◌, Bool, true, false, not, List, [], ◌∷◌, ◌++◌, ltb, leb,
  ◌==◌, if◌then◌else◌, Option, none, some, length, take, drop,
}
use tradeverse_api.Orm.{Query, Created, Saved}
pub mod Luhn
pub mod Obfuscation
pub mod Sequence
pub mod Uniqueness
pub mod Tests

-- `luhnDigit`: the digits come in reverse, as its loop reads them.
abbrev pub doubled : Bool → ℕ → ℕ
doubled dbl d = if dbl then (if ltb 9 (d * 2) then d * 2 - 9 else d * 2) else d

pub luhn_sum : Bool → List ℕ → ℕ
luhn_sum dbl [] = 0
luhn_sum dbl (d ∷ ds) = doubled dbl d + luhn_sum (not dbl) ds

pub reverse_onto : List ℕ → List ℕ → List ℕ
reverse_onto acc [] = acc
reverse_onto acc (x ∷ xs) = reverse_onto (x ∷ acc) xs

pub luhn_digit : List ℕ → ℕ
unfolding luhn_sum reverse_onto
luhn_digit num = (10 - luhn_sum true (reverse_onto [] num) % 10) % 10

-- `perm[i]`, `seed[k]`; an index out of range, which the code never reaches, reads 0.
abbrev pub at : List ℕ → ℕ → ℕ
at [] i = 0
at (x ∷ xs) zero = x
at (x ∷ xs) (suc i) = at xs i

abbrev pub set_at : List ℕ → ℕ → ℕ → List ℕ
set_at [] i v = []
set_at (x ∷ xs) zero v = v ∷ xs
set_at (x ∷ xs) (suc i) v = x ∷ set_at xs i v

-- `perm[i], perm[j] = perm[j], perm[i]`
pub swap : ℕ → ℕ → List ℕ → List ℕ
swap i j perm = set_at (set_at perm i (at perm j)) j (at perm i)

-- The loop of `buildDigitPerm`, from `i` down to 1, with `k` the next byte of the seed.
pub shuffle : List ℕ → ℕ → ℕ → List ℕ → List ℕ
unfolding swap
shuffle seed zero k perm = perm
shuffle seed (suc i) k perm =
    shuffle seed i (if leb (length seed) (k + 1) then 0 else k + 1)
      (swap (suc i) (at seed k % (i + 2)) perm)

abbrev pub digits : List ℕ
digits = 0 ∷ 1 ∷ 2 ∷ 3 ∷ 4 ∷ 5 ∷ 6 ∷ 7 ∷ 8 ∷ 9 ∷ []

-- `buildDigitPerm`, from the HMAC of "dateperm"
pub build_digit_perm : List ℕ → List ℕ
unfolding shuffle
build_digit_perm seed = shuffle seed 9 0 digits

-- `buildRot`, from the HMAC of "rot"
abbrev pub build_rot : List ℕ → ℕ
build_rot mac = at mac 0 % 6

-- The loop of `obfuscateYYMMDD`: `b[i] = perm[s[i] - '0']`
abbrev pub permuted : List ℕ → List ℕ → List ℕ
permuted perm [] = []
permuted perm (d ∷ ds) = at perm d ∷ permuted perm ds

pub rotated : ℕ → List ℕ → List ℕ
rotated rot b = if ltb 0 rot then drop (6 - rot % 6) b ++ take (6 - rot % 6) b else b

-- `fmt.Sprintf("%02d", n)` of a number below 100
abbrev pub two_digits : ℕ → List ℕ
two_digits n = n / 10 ∷ n % 10 ∷ []

-- `obfuscateYYMMDD` of the date in the generator's zone, with the two HMACs
pub obfuscate_yymmdd : List ℕ → List ℕ → ℕ → ℕ → ℕ → List ℕ
unfolding build_digit_perm rotated
obfuscate_yymmdd seed mac year month day = rotated (build_rot mac) (
    permuted (build_digit_perm seed)
      (two_digits (year % 100) ++ (two_digits month ++ two_digits day)))

-- What one `nextSeq` finds: the row's query and whether each write and the commit succeed.
pub record Calls : Type 0 where
  pub take_fails : Bool
  pub update : Saved
  pub create : Saved
  pub commit : Saved

-- The closure that `Transaction` runs: the number, and `last_seq` of the row after it.
seq_step : Option ℕ → Calls → Option (ℕ × ℕ)
seq_step (some last_seq) calls =
    if leb 9999 last_seq
    then none
    else if not calls.update
    then none
    else some (last_seq, last_seq + 1)
seq_step none calls = if not calls.create then none else some (0, 1)

-- `nextSeq` on the row of the day and the flag, if there is one: the number, or an error, and the
-- row after the transaction. The row is locked, so the transactions follow one another.
pub next_seq : Option ℕ → Calls → Option ℕ × Option ℕ
unfolding seq_step
next_seq row calls = if calls.take_fails then (none, row) else elim (seq_step row calls) [
  | none ↦ (none, row)
  | some (seq, last_seq) ↦ if calls.commit then (some seq, some last_seq) else (none, row)
]

-- The numbers that a day's calls return, in order.
abbrev pub given : Option ℕ → List ℕ → List ℕ
given none seqs = seqs
given (some seq) seqs = seq ∷ seqs

pub draws : Option ℕ → List Calls → List ℕ
unfolding next_seq
draws row [] = []
draws row (c ∷ cs) = given (next_seq row c).0 (draws (next_seq row c).1 cs)

-- `Generate`, with the number or the error of `nextSeq`, and that of `rand3`, three digits.
abbrev pub numbered : ℕ → List ℕ → ℕ → List ℕ → List ℕ
numbered flag obf seq r3 =
    flag ∷ (obf ++ (seq / 1000 ∷ seq / 100 % 10 ∷ seq / 10 % 10 ∷ seq % 10 ∷ r3))

pub generate : List ℕ → List ℕ → ℕ → ℕ × ℕ × ℕ → Option ℕ → Option (List ℕ) → Option (List ℕ)
unfolding obfuscate_yymmdd luhn_digit
generate seed mac flag date none r3 = none
generate seed mac flag date (some seq) none = none
generate seed mac flag (year, month, day) (some seq) (some r3) =
    let body = numbered flag (obfuscate_yymmdd seed mac year month day) seq r3 in
    some (body ++ (luhn_digit body ∷ []))
