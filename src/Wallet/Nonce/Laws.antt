-- ===== src/Wallet/Nonce/Laws.antt =====
-- The laws of the nonce: bigIntToHex32 and hex32ToBigInt, api/http/controller/auth/user.go.
use tradeverse_api.Prelude.{
  ℕ, zero, suc, ◌+◌, ◌-◌, ◌*◌, ◌/◌, ◌%◌, ◌≤◌, ◌<◌, String, ◌≡◌, refl, inl, inr, List, [], ◌∷◌, ◌++◌,
  ◌==◌, arith, Option, some, Bool-cases, length, ltb,
}
use tradeverse_api.Wallet.Nonce.{
  bytes_from, big_bytes, set_bytes_from, set_bytes, zeros, big_int_to_hex32, hex32_to_big_int,
}

set_bytes_from-append :
    (acc b : ℕ) (bs : List ℕ)
    → set_bytes_from acc (bs ++ (b ∷ [])) ≡ set_bytes_from acc bs * 256 + b
unfolding set_bytes_from
set_bytes_from-append acc b [] = refl
set_bytes_from-append acc b (c ∷ bs) = set_bytes_from-append (acc * 256 + c) b bs

set_bytes-bytes_from : (rounds n : ℕ) → n ≤ rounds → set_bytes_from 0 (bytes_from rounds n) ≡ n
unfolding bytes_from set_bytes_from
set_bytes-bytes_from zero n h = omega arith
set_bytes-bytes_from (suc r) n h = elim (Bool-cases (n == 0)) [
  | inl e ↦ ground arith
  | inr e ↦ rw e (
      rw (set_bytes_from-append 0 (n % 256) (bytes_from r (n / 256)))
        (rw (set_bytes-bytes_from r (n / 256) (ground arith)) (omega arith)))
]

set_bytes_from-zeros :
    (k : ℕ) (bs : List ℕ) → set_bytes_from 0 (zeros k ++ bs) ≡ set_bytes_from 0 bs
unfolding zeros set_bytes_from
set_bytes_from-zeros zero bs = refl
set_bytes_from-zeros (suc k) bs = set_bytes_from-zeros k bs

-- Numbers that are bytes.
abbrev pub AllBytes : List ℕ → Type 0
AllBytes [] = Unit
AllBytes (b ∷ bs) = (b < 256) × AllBytes bs

AllBytes-append : (xs : List ℕ) (b : ℕ) → AllBytes xs → b < 256 → AllBytes (xs ++ (b ∷ []))
AllBytes-append [] b h k = (k, tt)
AllBytes-append (x ∷ xs) b h k = (h.0, AllBytes-append xs b h.1 k)

bytes_from-AllBytes : (rounds n : ℕ) → AllBytes (bytes_from rounds n)
unfolding bytes_from
bytes_from-AllBytes zero n = tt
bytes_from-AllBytes (suc r) n = elim (Bool-cases (n == 0)) [
  | inl e ↦ ground arith
  | inr e ↦ rw e (
      AllBytes-append (bytes_from r (n / 256)) (n % 256) (bytes_from-AllBytes r (n / 256))
        (omega arith))
]

zeros-AllBytes : (k : ℕ) (bs : List ℕ) → AllBytes bs → AllBytes (zeros k ++ bs)
unfolding zeros
zeros-AllBytes zero bs h = h
zeros-AllBytes (suc k) bs h = (omega arith, zeros-AllBytes k bs h)

-- If decoding undoes encoding on every list of bytes, `hex32_to_big_int` undoes `big_int_to_hex32`
-- on every number.
pub hex32_to_big_int-big_int_to_hex32 :
    (encode : List ℕ → String) (decode : String → Option (List ℕ))
    → ((bs : List ℕ) → AllBytes bs → decode (encode bs) ≡ some bs)
    → (n : ℕ) → hex32_to_big_int decode (big_int_to_hex32 encode n) ≡ some n
unfolding hex32_to_big_int big_int_to_hex32 big_bytes set_bytes
hex32_to_big_int-big_int_to_hex32 encode decode inverse n =
    let b = bytes_from n n in
    let e = set_bytes-bytes_from n n (omega arith) in
    let k = bytes_from-AllBytes n n in
    elim (Bool-cases (ltb (length b) 32)) [
      | inl short ↦ ground (
        arith,
        inverse (zeros (32 - length b) ++ b) (zeros-AllBytes (32 - length b) b k),
        set_bytes_from-zeros (32 - length b) b,
        e,
      )
      | inr long ↦ ground (arith, inverse b k, e)
    ]
