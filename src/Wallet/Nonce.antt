-- ===== src/Wallet/Nonce.antt =====
-- `bigIntToHex32` and `hex32ToBigInt`, api/http/controller/auth/user.go: the nonce of a lock as
-- 32 bytes in hexadecimal. `hexutil.Encode` and `hexutil.Decode` (go-ethereum) are arguments; a
-- byte string is a list of numbers below 256.
use tradeverse_api.Prelude.{
  ℕ, zero, suc, ◌+◌, ◌-◌, ◌*◌, ◌/◌, ◌%◌, String, List, [], ◌∷◌, ◌++◌, ltb, ◌==◌, if◌then◌else◌,
  Option, none, some, length,
}
pub mod Laws
mod Tests

-- `n.Bytes()` of math/big: big-endian, without leading zeros. Each digit lowers `n`, so `n` rounds
-- are enough.
bytes_from : ℕ → ℕ → List ℕ
bytes_from zero n = []
bytes_from (suc rounds) n =
    let rest = bytes_from rounds (n / 256) in if n == 0 then [] else rest ++ (n % 256 ∷ [])

big_bytes : ℕ → List ℕ
unfolding bytes_from
big_bytes n = bytes_from n n

-- `new(big.Int).SetBytes(b)`
set_bytes_from : ℕ → List ℕ → ℕ
set_bytes_from acc [] = acc
set_bytes_from acc (b ∷ bs) = set_bytes_from (acc * 256 + b) bs

pub set_bytes : List ℕ → ℕ
unfolding set_bytes_from
set_bytes = set_bytes_from 0

zeros : ℕ → List ℕ
zeros zero = []
zeros (suc n) = 0 ∷ zeros n

pub big_int_to_hex32 : (List ℕ → String) → ℕ → String
unfolding big_bytes zeros
big_int_to_hex32 encode n =
    let b = big_bytes n in encode (if ltb (length b) 32 then zeros (32 - length b) ++ b else b)

-- `none` is `nil`.
pub hex32_to_big_int : (String → Option (List ℕ)) → String → Option ℕ
unfolding set_bytes
hex32_to_big_int decode s = elim (decode s) [ none ↦ none | some b ↦ some (set_bytes b) ]
