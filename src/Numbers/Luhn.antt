-- ===== src/Numbers/Luhn.antt =====
-- The check digit of system/rand.go.
use tradeverse_api.Prelude.{
  ℕ, ◌+◌, ◌%◌, ◌<◌, Bool, true, false, sym, not, List, [], ◌∷◌, ◌++◌, ◌≡◌, refl, arith, ap, ◌∙◌,
}
use tradeverse_api.Numbers.{doubled, luhn_sum, reverse_onto, luhn_digit}

-- The test of a whole number, its check digit included: the doubling starts at the second digit from
-- the right.
abbrev pub passes : List ℕ → ℕ
passes num = luhn_sum (not true) (reverse_onto [] num) % 10

reverse_onto-append :
    (acc xs : List ℕ) (y : ℕ) (ys : List ℕ)
    → reverse_onto acc (xs ++ (y ∷ ys)) ≡ reverse_onto (y ∷ reverse_onto acc xs) ys
unfolding reverse_onto
reverse_onto-append acc [] y ys = refl
reverse_onto-append acc (x ∷ xs) y ys = reverse_onto-append (x ∷ acc) xs y ys

append_one : (r : List ℕ) (x : ℕ) (acc : List ℕ) → (r ++ (x ∷ [])) ++ acc ≡ r ++ (x ∷ acc)
append_one [] x acc = refl
append_one (y ∷ r) x acc = ap (λ s. y ∷ s) (append_one r x acc)

reverse_onto_split : (acc xs : List ℕ) → reverse_onto acc xs ≡ reverse_onto [] xs ++ acc
unfolding reverse_onto
reverse_onto_split acc [] = refl
reverse_onto_split acc (x ∷ xs) =
    reverse_onto_split (x ∷ acc) xs
    ∙ (sym (append_one (reverse_onto [] xs) x acc)
        ∙ ap (λ r. r ++ acc) (sym (reverse_onto_split (x ∷ []) xs)))

-- Whether the digit after these is doubled.
abbrev after : Bool → List ℕ → Bool
after dbl [] = dbl
after dbl (d ∷ ds) = after (not dbl) ds

luhn_sum-append :
    (dbl : Bool) (us : List ℕ) (x : ℕ) (vs : List ℕ)
    → luhn_sum dbl (us ++ (x ∷ vs))
      ≡ luhn_sum dbl us + (doubled (after dbl us) x + luhn_sum (not (after dbl us)) vs)
unfolding luhn_sum
luhn_sum-append dbl [] x vs = omega arith
luhn_sum-append dbl (u ∷ us) x vs = omega (arith, luhn_sum-append (not dbl) us x vs)

doubled_apart : (dbl : Bool) (x y : ℕ) → x < 10 → y < 10 → doubled dbl x ≡ doubled dbl y → x ≡ y
doubled_apart dbl x y hx hy e = ground arith

doubled_small : (dbl : Bool) (x : ℕ) → x < 10 → doubled dbl x < 10
doubled_small dbl x hx = ground arith

-- A number that ends in its check digit passes the Luhn test.
pub passes-luhn_digit : (num : List ℕ) → passes (num ++ (luhn_digit num ∷ [])) ≡ 0
unfolding luhn_digit luhn_sum reverse_onto
passes-luhn_digit num =
    ap (λ r. luhn_sum false r % 10) (reverse_onto-append [] num (luhn_digit num) []) ∙ omega arith

sum_split :
    (xs : List ℕ) (a : ℕ) (ys : List ℕ)
    → luhn_sum true (reverse_onto [] (xs ++ (a ∷ ys)))
      ≡ luhn_sum true (reverse_onto [] ys)
        + (doubled (after true (reverse_onto [] ys)) a
            + luhn_sum (not (after true (reverse_onto [] ys))) (reverse_onto [] xs))
sum_split xs a ys =
    ap (luhn_sum true)
      (reverse_onto-append [] xs a ys ∙ reverse_onto_split (a ∷ reverse_onto [] xs) ys)
    ∙ luhn_sum-append true (reverse_onto [] ys) a (reverse_onto [] xs)

-- Two numbers that differ in one digit only have different check digits.
pub luhn_digit_apart :
    (xs : List ℕ) (a b : ℕ) (ys : List ℕ)
    → a < 10
    → b < 10
    → luhn_digit (xs ++ (a ∷ ys)) ≡ luhn_digit (xs ++ (b ∷ ys))
    → a ≡ b
unfolding luhn_digit
luhn_digit_apart xs a b ys ha hb e =
    let dbl = after true (reverse_onto [] ys) in
    doubled_apart dbl a b ha hb (
      omega (
        arith,
        e,
        sum_split xs a ys,
        sum_split xs b ys,
        doubled_small dbl a ha,
        doubled_small dbl b hb,
      ))
