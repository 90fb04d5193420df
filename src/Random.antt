-- ===== src/Random.antt =====
-- Random texts: `GenerateNonce` and `GenerateShortInviteCode` of system/rand.go, and `randomLetters`
-- and `randomDigits` of api/http/controller/developer/index.go, which differ in the alphabet. What
-- the k-th call of `rand.Intn` (math/rand) answers for its bound is an argument.
use Prim.Native.String.{slice, ◌++◌}
use tradeverse_api.Prelude.{ℕ, zero, suc, ◌+◌, String, len}

abbrev pub Draws : Type 0
Draws = ℕ → ℕ → ℕ

-- n characters of the alphabet, from the k-th call on.
unfoldable pub random_text : Draws → String → ℕ → ℕ → String
random_text intn alphabet k zero = ""
random_text intn alphabet k (suc n) =
    let i = intn k (len alphabet) in slice alphabet i (i + 1) ++ random_text intn alphabet (k + 1) n

abbrev pub letters : String
letters = "abcdefghijklmnopqrstuvwxyzABCDEFGHIJKLMNOPQRSTUVWXYZ"

abbrev pub digits : String
digits = "0123456789"

abbrev pub alphanumerics : String
alphanumerics = "abcdefghijklmnopqrstuvwxyzABCDEFGHIJKLMNOPQRSTUVWXYZ0123456789"

unfoldable pub generate_nonce : Draws → ℕ → ℕ → String
unfolding random_text
generate_nonce intn k length = random_text intn alphanumerics k length

unfoldable pub generate_short_invite_code : Draws → String
unfolding random_text
generate_short_invite_code intn = random_text intn alphanumerics 1 (intn 0 4 + 5)
