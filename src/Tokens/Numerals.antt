-- ===== src/Tokens/Numerals.antt =====
-- `%d` of fmt, `strings.Split` and `strconv.ParseInt`, on bytes.
use tradeverse_api.Prelude.{
  ℕ, zero, suc, ◌+◌, ◌-◌, ◌*◌, ◌/◌, ◌%◌, ◌<◌, ◌^◌, Bool, true, false, ◌&&◌, List, [], ◌∷◌, ◌++◌,
  ltb, leb, ◌==◌, if◌then◌else◌, Option, none, some, ◌≡◌, refl, sym, ap, subst, ◌∙◌, arith,
  Bool-cases, inl, inr, length, length-append,
}
use tradeverse_api.Prelude.Integers.{ℤ, i64_half}
use tradeverse_api.Tokens.{Bytes}

abbrev pub bar : ℕ
bar = b'|'

abbrev pub comma : ℕ
comma = b','

abbrev is_digit : ℕ → Bool
is_digit c = leb b'0' c && leb c b'9'

-- The digits of a number, with as many steps as `fuel` allows.
unfoldable pub digits : ℕ → ℕ → Bytes
digits zero n = []
digits (suc fuel) n =
    let front = digits fuel (n / 10) in
    if ltb n 10 then (b'0' + n) ∷ [] else front ++ ((b'0' + n % 10) ∷ [])

-- `%d` of a number below 2 ^ 64, which has at most twenty digits.
unfoldable pub format_uint : ℕ → Bytes
unfolding digits
format_uint n = digits 20 n

natural_from : ℕ → Bytes → Option ℕ
natural_from acc [] = some acc
natural_from acc (c ∷ cs) =
    let rest = natural_from (acc * 10 + (c - b'0')) cs in if is_digit c then rest else none

-- One digit at least.
unfoldable pub natural : Bytes → Option ℕ
unfolding natural_from
natural [] = none
natural (c ∷ cs) = natural_from 0 (c ∷ cs)

-- The range of int64.
in_range : Bool → Option ℕ → Option ℤ
in_range negative none = none
in_range true (some zero) = some (ℤ.pos 0)
in_range true (some (suc n)) = if ltb n i64_half then some (ℤ.negsuc n) else none
in_range false (some n) = if ltb n i64_half then some (ℤ.pos n) else none

-- `strconv.ParseInt(s, 10, 64)`, where an error is `none`.
unfoldable pub parse_int : Bytes → Option ℤ
unfolding natural in_range
parse_int [] = none
parse_int (c ∷ cs) =
    if c == b'-'
    then in_range true (natural cs)
    else if c == b'+'
    then in_range false (natural cs)
    else in_range false (natural (c ∷ cs))

-- A byte in front of the first part.
put_front : ℕ → List Bytes → List Bytes
put_front c [] = []
put_front c (p ∷ ps) = (c ∷ p) ∷ ps

-- `strings.Split(s, sep)`, for a separator of one byte.
unfoldable pub split : ℕ → Bytes → List Bytes
unfolding put_front
split sep [] = [] ∷ []
split sep (c ∷ cs) = let rest = split sep cs in if c == sep then [] ∷ rest else put_front c rest

-- No byte of the text is the separator.
pub data Free (sep : ℕ) : Bytes → Type 0 where
  free_nil : Free sep []
  free_cons : {c : ℕ} {cs : Bytes} → (c == sep) ≡ false → Free sep cs → Free sep (c ∷ cs)

-- A text without the separator is one part, whatever comes behind the next separator.
pub split_part :
    (sep : ℕ) {p : Bytes} (rest : Bytes)
    → Free sep p
    → split sep (p ++ (sep ∷ rest)) ≡ p ∷ split sep rest
unfolding split
split_part sep rest free_nil = ground arith
split_part sep rest (free_cons h f) = ground (arith, split_part sep rest f)

pub split_last : (sep : ℕ) {p : Bytes} → Free sep p → split sep p ≡ p ∷ []
unfolding split
split_last sep free_nil = refl
split_last sep (free_cons h f) = ground (arith, split_last sep f)

pub Free-append : {sep : ℕ} {p q : Bytes} → Free sep p → Free sep q → Free sep (p ++ q)
Free-append free_nil g = g
Free-append (free_cons h f) g = free_cons h (Free-append f g)

digit-Free : (sep d : ℕ) → is_digit sep ≡ false → d < 10 → Free sep ((b'0' + d) ∷ [])
digit-Free sep d h l = free_cons (ground arith) free_nil

digits_small : (fuel n : ℕ) → ltb n 10 ≡ true → digits (suc fuel) n ≡ (b'0' + n) ∷ []
unfolding digits
digits_small fuel n e = ground arith

digits_large :
    (fuel n : ℕ)
    → ltb n 10 ≡ false
    → digits (suc fuel) n ≡ digits fuel (n / 10) ++ ((b'0' + n % 10) ∷ [])
unfolding digits
digits_large fuel n e = ground arith

-- A separator that is no digit is not in a number.
pub digits-Free : (sep fuel n : ℕ) → is_digit sep ≡ false → Free sep (digits fuel n)
unfolding digits
digits-Free sep zero n h = free_nil
digits-Free sep (suc fuel) n h = elim (Bool-cases (ltb n 10)) [
  | inl e ↦ subst (Free sep) (sym (digits_small fuel n e)) (digit-Free sep n h (ground arith))
  | inr e ↦
      subst (Free sep) (sym (digits_large fuel n e))
        (Free-append (digits-Free sep fuel (n / 10) h) (digit-Free sep (n % 10) h (ground arith)))
]

natural_from-append :
    (acc : ℕ) (cs : Bytes) (d v : ℕ)
    → natural_from acc cs ≡ some v
    → d < 10
    → natural_from acc (cs ++ ((b'0' + d) ∷ [])) ≡ some (v * 10 + d)
unfolding natural_from
natural_from-append acc [] d v e h = ground arith
natural_from-append acc (c ∷ cs) d v e h =
    ground (arith, natural_from-append (acc * 10 + (c - b'0')) cs d v)

natural_from-digits : (fuel n : ℕ) → n < 10 ^ fuel → natural_from 0 (digits fuel n) ≡ some n
unfolding natural_from digits
natural_from-digits zero n h = ground arith
natural_from-digits (suc fuel) n h = elim (Bool-cases (ltb n 10)) [
  | inl e ↦ ground (arith, digits_small fuel n e)
  | inr e ↦
      ap (natural_from 0) (digits_large fuel n e)
      ∙ (natural_from-append 0 (digits fuel (n / 10)) (n % 10) (n / 10)
            (natural_from-digits fuel (n / 10) (omega arith)) (omega arith)
          ∙ ap some (omega arith))
]

parse_plain :
    (cs : Bytes) (n : ℕ)
    → Free b'-' cs
    → Free b'+' cs
    → 0 < length cs
    → natural_from 0 cs ≡ some n
    → n < i64_half
    → parse_int cs ≡ some (ℤ.pos n)
unfolding parse_int
parse_plain [] n f g pos e h = ground arith
parse_plain (c ∷ cs) n (free_cons a f) (free_cons b g) pos e h = ground arith

digits_nonempty : (fuel n : ℕ) → 0 < length (digits (suc fuel) n)
digits_nonempty fuel n = elim (Bool-cases (ltb n 10)) [
  | inl e ↦ ground (arith, digits_small fuel n e)
  | inr e ↦
      ground
        (arith, digits_large fuel n e, length-append (digits fuel (n / 10)) ((b'0' + n % 10) ∷ []))
]

-- A number is read back.
pub parse_int-format_uint : (n : ℕ) → n < i64_half → parse_int (format_uint n) ≡ some (ℤ.pos n)
unfolding format_uint
parse_int-format_uint n h =
    parse_plain (digits 20 n) n (digits-Free b'-' 20 n refl) (digits-Free b'+' 20 n refl)
      (digits_nonempty 19 n) (natural_from-digits 20 n (omega arith)) h

pub format_uint-Free : (sep n : ℕ) → is_digit sep ≡ false → Free sep (format_uint n)
unfolding format_uint
format_uint-Free sep n h = digits-Free sep 20 n h
