-- ===== src/Numbers/Uniqueness.antt =====
-- Whole user numbers, `Generate` of system/rand.go.
use tradeverse_api.Prelude.{
  ℕ, ◌/◌, ◌%◌, ◌<◌, List, [], ◌∷◌, ◌++◌, Option, none, some, length, ◌≡◌, refl, arith, ap, ◌∙◌, sym,
  ◌-◌, take, drop, length-append, take-append-drop,
}
use tradeverse_api.Numbers.{at, rotated, build_rot, numbered, obfuscate_yymmdd, generate}
use tradeverse_api.Numbers.Luhn.{passes, passes-luhn_digit}
use tradeverse_api.Numbers.Obfuscation.{append_cancel, obfuscate_yymmdd_apart}

abbrev content_of : Option (List ℕ) → List ℕ
content_of none = []
content_of (some x) = x

append_assoc : (a b c : List ℕ) → (a ++ b) ++ c ≡ a ++ (b ++ c)
append_assoc [] b c = refl
append_assoc (x ∷ a) b c = ap (λ s. x ∷ s) (append_assoc a b c)

length-rotated : (r : ℕ) (b : List ℕ) → length (rotated r b) ≡ length b
unfolding rotated
length-rotated r b = ground (
  arith,
  length-append (drop (6 - r % 6) b) (take (6 - r % 6) b),
  ap length (take-append-drop (6 - r % 6) b),
  length-append (take (6 - r % 6) b) (drop (6 - r % 6) b),
)

length-obfuscate_yymmdd :
    (seed mac : List ℕ) (y m d : ℕ) → length (obfuscate_yymmdd seed mac y m d) ≡ 6
unfolding obfuscate_yymmdd
length-obfuscate_yymmdd seed mac y m d = length-rotated (build_rot mac) _

-- The parts of a number's body can be read off it.
numbered_apart :
    (flag flag' : ℕ) (obf obf' : List ℕ) (seq seq' : ℕ) (r r' : List ℕ) (c c' : List ℕ)
    → length obf ≡ length obf'
    → seq < 10000
    → seq' < 10000
    → numbered flag obf seq r ++ c ≡ numbered flag' obf' seq' r' ++ c'
    → (flag ≡ flag') × (obf ≡ obf') × (seq ≡ seq')
numbered_apart flag flag' obf obf' seq seq' r r' c c' h hs hs' e =
    let digits = seq / 1000 ∷ seq / 100 % 10 ∷ seq / 10 % 10 ∷ seq % 10 ∷ r in
    let digits' = seq' / 1000 ∷ seq' / 100 % 10 ∷ seq' / 10 % 10 ∷ seq' % 10 ∷ r' in
    let tails = sym (append_assoc obf digits c) ∙ (ap (drop 1) e ∙ append_assoc obf' digits' c') in
    let (same, rest) = append_cancel obf (digits ++ c) obf' (digits' ++ c') h tails in
    (
      ap (λ x. at x 0) e,
      same,
      omega (
        arith,
        ap (λ x. at x 0) rest,
        ap (λ x. at x 1) rest,
        ap (λ x. at x 2) rest,
        ap (λ x. at x 3) rest,
      ),
    )

-- Two user numbers that are the same have the same flag, the same date, the century aside, and the
-- same sequence number, if the secret is the same: what is drawn at random can be anything.
pub generate_apart :
    (seed mac : List ℕ) (flag flag' y m d y' m' d' seq seq' : ℕ) (r r' : Option (List ℕ))
    (num : List ℕ)
    → m < 100
    → d < 100
    → m' < 100
    → d' < 100
    → seq < 10000
    → seq' < 10000
    → generate seed mac flag (y, m, d) (some seq) r ≡ some num
    → generate seed mac flag' (y', m', d') (some seq') r' ≡ some num
    → (flag ≡ flag') × ((y % 100 ≡ y' % 100) × (m ≡ m') × (d ≡ d')) × (seq ≡ seq')
unfolding generate
generate_apart seed mac flag flag' y m d y' m' d' seq seq' none r' num hm hd hm' hd' hs hs' e e' =
    ground arith
generate_apart seed mac flag flag' y m d y' m' d' seq seq' (some r) none num hm hd hm' hd' hs hs' e
      e' =
    ground arith
generate_apart seed mac flag flag' y m d y' m' d' seq seq' (some r) (some r') num hm hd hm' hd' hs
      hs' e e' =
    let obf = obfuscate_yymmdd seed mac y m d in
    let obf' = obfuscate_yymmdd seed mac y' m' d' in
    let (flags, obfs, seqs) =
      numbered_apart flag flag' obf obf' seq seq' r r' _ _
        (length-obfuscate_yymmdd seed mac y m d ∙ sym (length-obfuscate_yymmdd seed mac y' m' d'))
        hs hs' (ap content_of (e ∙ sym e')) in
    (flags, obfuscate_yymmdd_apart seed mac y m d y' m' d' hm hd hm' hd' obfs, seqs)

-- Every user number passes the Luhn test.
pub generate-passes :
    (seed mac : List ℕ) (flag : ℕ) (date : ℕ × ℕ × ℕ) (seq : Option ℕ) (r : Option (List ℕ))
    (num : List ℕ)
    → generate seed mac flag date seq r ≡ some num
    → passes num ≡ 0
unfolding generate
generate-passes seed mac flag date none r num e = ground arith
generate-passes seed mac flag date (some seq) none num e = ground arith
generate-passes seed mac flag (y, m, d) (some seq) (some r3) num e =
    ap passes (sym (ap content_of e))
    ∙ passes-luhn_digit (numbered flag (obfuscate_yymmdd seed mac y m d) seq r3)
