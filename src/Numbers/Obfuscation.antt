-- ===== src/Numbers/Obfuscation.antt =====
-- The obfuscation of a date in a user number, system/rand.go.
use tradeverse_api.Prelude.{
  ℕ, zero, suc, ◌+◌, ◌-◌, ◌/◌, ◌%◌, ◌<◌, List, [], ◌∷◌, ◌++◌, ◌==◌, if◌then◌else◌, length, take,
  drop, ◌≡◌, refl, arith, ap, sym, ◌∙◌, take-append-drop,
}
use tradeverse_api.Numbers.{
  at, set_at, swap, shuffle, digits, build_digit_perm, build_rot, permuted, rotated, two_digits,
  obfuscate_yymmdd,
}

-- Ten entries, no two of them the same.
abbrev pub IsPerm : List ℕ → Type 0
IsPerm p = (length p ≡ 10) × ((a b : ℕ) → a < 10 → b < 10 → at p a ≡ at p b → a ≡ b)

length-set_at : (p : List ℕ) (i v : ℕ) → length (set_at p i v) ≡ length p
length-set_at [] i v = refl
length-set_at (x ∷ p) zero v = refl
length-set_at (x ∷ p) (suc i) v = omega (arith, length-set_at p i v)

at-set_at :
    (p : List ℕ) (i v k : ℕ) → i < length p → at (set_at p i v) k ≡ (if k == i then v else at p k)
at-set_at [] i v k h = ground arith
at-set_at (x ∷ p) zero v zero h = ground arith
at-set_at (x ∷ p) zero v (suc k) h = ground arith
at-set_at (x ∷ p) (suc i) v zero h = ground arith
at-set_at (x ∷ p) (suc i) v (suc k) h = ground (arith, at-set_at p i v k (omega (arith, h)))

at-swap :
    (p : List ℕ) (i j k : ℕ)
    → i < length p
    → j < length p
    → at (swap i j p) k ≡ (if k == j then at p i else if k == i then at p j else at p k)
unfolding swap
at-swap p i j k hi hj = ground (
  arith,
  at-set_at (set_at p i (at p j)) j (at p i) k (omega (arith, length-set_at p i (at p j))),
  at-set_at p i (at p j) k hi,
)

swap_apart :
    (p : List ℕ) (i j a b : ℕ)
    → i < 10
    → j < 10
    → a < 10
    → b < 10
    → IsPerm p
    → at (swap i j p) a ≡ at (swap i j p) b
    → a ≡ b
swap_apart p i j a b hi hj ha hb (len, apart) e =
    let hi' : i < length p = omega arith in
    let hj' : j < length p = omega arith in
    let ea = at-swap p i j a hi' hj' in
    let eb = at-swap p i j b hi' hj' in
    ground (
      arith,
      apart a b ha hb,
      apart i b hi hb,
      apart j b hj hb,
      apart a i ha hi,
      apart a j ha hj,
      apart i j hi hj,
    )

swap-IsPerm : (p : List ℕ) (i j : ℕ) → i < 10 → j < 10 → IsPerm p → IsPerm (swap i j p)
unfolding swap
swap-IsPerm p i j hi hj (len, apart) = (
  omega (arith, length-set_at (set_at p i (at p j)) j (at p i), length-set_at p i (at p j), len),
  λ a b ha hb e. swap_apart p i j a b hi hj ha hb (len, apart) e,
)

shuffle-IsPerm :
    (seed : List ℕ) (i k : ℕ) (p : List ℕ) → i < 10 → IsPerm p → IsPerm (shuffle seed i k p)
unfolding shuffle
shuffle-IsPerm seed zero k p h is = is
shuffle-IsPerm seed (suc i) k p h is =
    shuffle-IsPerm seed i _ _ (omega (arith, h))
      (swap-IsPerm p (suc i) (at seed k % (i + 2)) h (omega (arith, h)) is)

at-digits : (a : ℕ) → a < 10 → at digits a ≡ a
at-digits a h = ground arith

digits-IsPerm : IsPerm digits
digits-IsPerm = (refl, λ a b ha hb e. sym (at-digits a ha) ∙ (e ∙ at-digits b hb))

-- Whatever the secret is, the digits are permuted.
pub build_digit_perm-IsPerm : (seed : List ℕ) → IsPerm (build_digit_perm seed)
unfolding build_digit_perm
build_digit_perm-IsPerm seed = shuffle-IsPerm seed 9 0 digits (ground arith) digits-IsPerm

pub append_cancel : (a b c d : List ℕ) → length a ≡ length c → a ++ b ≡ c ++ d → (a ≡ c) × (b ≡ d)
append_cancel [] b [] d h e = (refl, e)
append_cancel [] b (y ∷ c) d h e = ground arith
append_cancel (x ∷ a) b [] d h e = ground arith
append_cancel (x ∷ a) b (y ∷ c) d h e = ground (arith, append_cancel a b c d (omega (arith, h)))

length-drop : (n : ℕ) (xs : List ℕ) → length (drop n xs) ≡ length xs - n
length-drop zero xs = omega arith
length-drop (suc n) [] = omega arith
length-drop (suc n) (x ∷ xs) = omega (arith, length-drop n xs)

parts_apart :
    (n : ℕ) (b c : List ℕ)
    → length b ≡ length c
    → drop n b ++ take n b ≡ drop n c ++ take n c
    → b ≡ c
parts_apart n b c h e =
    let (dropped, taken) =
      append_cancel (drop n b) (take n b) (drop n c) (take n c)
        (omega (arith, length-drop n b, length-drop n c, h)) e in
    sym (take-append-drop n b)
    ∙ (ap (λ x. x ++ drop n b) taken ∙ (ap (λ x. take n c ++ x) dropped ∙ take-append-drop n c))

pub rotated_apart : (r : ℕ) (b c : List ℕ) → length b ≡ length c → rotated r b ≡ rotated r c → b ≡ c
unfolding rotated
rotated_apart r b c h e = ground (arith, parts_apart (6 - r % 6) b c h)

-- Two digits, permuted.
two_apart :
    (p : List ℕ) (m n : ℕ)
    → IsPerm p
    → m < 100
    → n < 100
    → at p (m / 10) ≡ at p (n / 10)
    → at p (m % 10) ≡ at p (n % 10)
    → m ≡ n
two_apart p m n (len, apart) hm hn et eu =
    let tens = apart (m / 10) (n / 10) (omega (arith, hm)) (omega (arith, hn)) et in
    let units = apart (m % 10) (n % 10) (omega arith) (omega arith) eu in omega (arith, tens, units)

date_apart :
    (p : List ℕ) (y m d y' m' d' : ℕ)
    → IsPerm p
    → y < 100
    → m < 100
    → d < 100
    → y' < 100
    → m' < 100
    → d' < 100
    → permuted p (two_digits y ++ (two_digits m ++ two_digits d))
      ≡ permuted p (two_digits y' ++ (two_digits m' ++ two_digits d'))
    → (y ≡ y') × (m ≡ m') × (d ≡ d')
date_apart p y m d y' m' d' is hy hm hd hy' hm' hd' e = (
  two_apart p y y' is hy hy' (ap (λ x. at x 0) e) (ap (λ x. at x 1) e),
  two_apart p m m' is hm hm' (ap (λ x. at x 2) e) (ap (λ x. at x 3) e),
  two_apart p d d' is hd hd' (ap (λ x. at x 4) e) (ap (λ x. at x 5) e),
)

-- Whatever the secret is, two dates of one century are obfuscated to the same digits only if they
-- are the same.
pub obfuscate_yymmdd_apart :
    (seed mac : List ℕ) (y m d y' m' d' : ℕ)
    → m < 100
    → d < 100
    → m' < 100
    → d' < 100
    → obfuscate_yymmdd seed mac y m d ≡ obfuscate_yymmdd seed mac y' m' d'
    → (y % 100 ≡ y' % 100) × (m ≡ m') × (d ≡ d')
unfolding obfuscate_yymmdd
obfuscate_yymmdd_apart seed mac y m d y' m' d' hm hd hm' hd' e =
    date_apart (build_digit_perm seed) (y % 100) m d (y' % 100) m' d' (build_digit_perm-IsPerm seed)
      (omega arith) hm hd (omega arith) hm' hd' (rotated_apart (build_rot mac) _ _ refl e)
