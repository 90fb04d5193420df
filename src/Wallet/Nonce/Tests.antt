-- ===== src/Wallet/Nonce/Tests.antt =====
-- A pair of text functions that satisfies what is asked of `hexutil`: each byte is written in
-- unary.
use tradeverse_api.Prelude.{
  ℕ, zero, suc, ◌+◌, ◌==◌, ◌≡◌, refl, String, List, [], ◌∷◌, Option, none, some, if◌then◌else◌,
  arith,
}
use Prim.Native.Char.{code}
use tradeverse_api.Wallet.Nonce.Laws.{AllBytes}

abbrev tick : ℕ → String → String
tick zero s = String.◌∷◌ "b" s
tick (suc n) s = String.◌∷◌ "a" (tick n s)

abbrev encode : List ℕ → String
encode [] = ""
encode (b ∷ bs) = tick b (encode bs)

abbrev push : ℕ → Option (List ℕ) → Option (List ℕ)
push b none = none
push b (some bs) = some (b ∷ bs)

abbrev decode_from : ℕ → String → Option (List ℕ)
decode_from acc String.[] = some []
decode_from acc (String.◌∷◌ c s) =
    let more = decode_from (suc acc) s in
    let rest = push acc (decode_from 0 s) in if code c == b'a' then more else rest

abbrev decode : String → Option (List ℕ)
decode s = decode_from 0 s

decode_from-tick :
    (acc n : ℕ) (s : String) → decode_from acc (tick n s) ≡ push (acc + n) (decode_from 0 s)
decode_from-tick acc zero s = ground arith
decode_from-tick acc (suc n) s = ground (arith, decode_from-tick (suc acc) n s)

decode-encode : (bs : List ℕ) → AllBytes bs → decode (encode bs) ≡ some bs
decode-encode [] h = refl
decode-encode (b ∷ bs) h = ground (arith, decode_from-tick 0 b (encode bs), decode-encode bs h.1)
