-- ===== src/Login/Signatures.antt =====
-- `ComputeAuthDigest` and its helpers, model/chao.go: who has signed a message. Arguments are the
-- curves and digests (go-ethereum, crypto/ed25519), the decoders (encoding/hex, encoding/base64,
-- github.com/mr-tron/base58), `strings.TrimSpace` and `strings.EqualFold`.
use Prim.Native.String.{◌++◌, slice}
use text.Mathlib.Text.{starts_with}
use tradeverse_api.Prelude.{
  ℕ, zero, suc, ◌+◌, ◌-◌, ◌/◌, ◌%◌, String, len, Bool, true, false, not, ◌&&◌, ◌||◌, List, [], ◌∷◌,
  ltb, leb, ◌==◌, length, take, drop, codes, if◌then◌else◌, Option, none, some,
}
use tradeverse_api.Prelude.{◌++◌ as append}
use tradeverse_api.Tokens.{Bytes}
use tradeverse_api.Login.{AuthMessage}

pub record SigLib (PubKey : Type 0) : Type 0 where
  pub trim_space : String → String
  pub equal_fold : String → String → Bool
  pub hex_decode : String → Option Bytes
  pub base64_decode : String → Option Bytes
  pub base58_decode : String → Option Bytes
  -- the digest of the bytes of a text
  pub keccak256 : String → Bytes
  -- the key that a signature of a digest comes from
  pub sig_to_pub : Bytes → Bytes → Option PubKey
  -- `PubkeyToAddress(...).Hex()`
  pub address_hex : PubKey → String
  pub ed25519_verify : Bytes → String → Bytes → Bool

-- `Format`
unfoldable pub format : AuthMessage → String
format auth =
    "Wallet:" ++ auth.auth_key ++ "\nMessage:" ++ auth.auth_msg ++ "\nNonce:" ++ auth.nonce ++ "\n"

-- `strconv.Itoa`, for a number with as many digits as `fuel` at most.
decimal : ℕ → ℕ → String
decimal zero n = ""
decimal (suc fuel) n =
    let front = decimal fuel (n / 10) in
    let digit = slice "0123456789" (n % 10) (n % 10 + 1) in
    if ltb n 10 then digit else front ++ digit

-- The text whose digest is taken in personal_sign; it has fewer than 2 ^ 63 bytes, so nineteen digits
-- are enough for its length.
unfoldable pub personal_message : String → String
unfolding decimal
personal_message message = "\u{19}Ethereum Signed Message:\n" ++ decimal 19 (len message) ++ message

has_prefix_0x : String → Bool
has_prefix_0x s = starts_with s "0x" || starts_with s "0X"

-- `strings.TrimPrefix`
abbrev trim_prefix : String → String → String
trim_prefix s p = if starts_with s p then slice s (len p) (len s) else s

abbrev trim_0x : String → String
trim_0x s = trim_prefix (trim_prefix s "0x") "0X"

abbrev between : ℕ → ℕ → ℕ → Bool
between a b c = leb a c && leb c b

all_hex : List ℕ → Bool
all_hex [] = true
all_hex (c ∷ cs) = (between b'0' b'9' c || between b'a' b'f' c || between b'A' b'F' c) && all_hex cs

-- `normalizeV`: the signature with its last byte brought to 0 or 1, or `none` where the code answers
-- false.
unfoldable pub recovery_id : ℕ → Option ℕ
recovery_id v =
    if v == 27 || v == 28
    then some (v - 27)
    else if leb 35 v
    then some ((v - 35) % 2)
    else if leb v 1
    then some v
    else none

unfoldable pub with_last : Bytes → List ℕ → Option Bytes
unfolding recovery_id
with_last front [] = none
with_last front (v ∷ rest) = elim (recovery_id v) [
  | none ↦ none
  | some r ↦ if leb r 1 then some (append front (r ∷ rest)) else none
]

unfoldable pub normalize_v : Bytes → Option Bytes
unfolding with_last
normalize_v sig = if not (length sig == 65) then none else with_last (take 64 sig) (drop 64 sig)

module _ {PubKey : Type 0} (lib : SigLib PubKey) where
  decodes : String → Bool
  decodes s = elim (lib.hex_decode s) [ none ↦ false | some b ↦ true ]

  unfoldable pub is_evm_address : String → Bool
  unfolding has_prefix_0x decodes
  is_evm_address s = len s == 42 && has_prefix_0x s && decodes (slice s 2 (len s))

  looks_like_hex : String → Bool
  unfolding all_hex
  looks_like_hex s =
      let ss = trim_0x (lib.trim_space s) in len ss % 2 == 0 && leb 2 (len ss) && all_hex (codes ss)

  -- base64, and hex as the last resort
  decode_rest : String → Option Bytes
  decode_rest s = elim (lib.base64_decode s) [ some b ↦ some b | none ↦ lib.hex_decode s ]

  -- The lower case of a text begins with "0x" just if the text begins with "0x" or "0X".
  unfoldable pub decode_sig_flexible : String → Option Bytes
  unfolding has_prefix_0x looks_like_hex decode_rest
  decode_sig_flexible text =
      let s = lib.trim_space text in
      if has_prefix_0x s || looks_like_hex s
      then elim (lib.hex_decode (trim_0x s)) [ some b ↦ some b | none ↦ decode_rest s ]
      else decode_rest s

  -- Whether the signature of the digest comes from the address.
  unfoldable pub signed_by : String → Bytes → Bytes → Bool
  signed_by address digest sig = elim (lib.sig_to_pub digest sig) [
    | none ↦ false
    | some pub_key ↦ lib.equal_fold (lib.address_hex pub_key) address
  ]

  -- personal_sign first, eth_sign if that fails
  evm_digest : AuthMessage → Option Bytes → Bool
  unfolding normalize_v signed_by personal_message format
  evm_digest auth none = false
  evm_digest auth (some decoded) = elim (normalize_v decoded) [
    | none ↦ false
    | some sig ↦
        signed_by auth.auth_key (lib.keccak256 (personal_message (format auth))) sig
        || signed_by auth.auth_key (lib.keccak256 (format auth)) sig
  ]

  solana_digest : AuthMessage → Option Bytes → Option Bytes → Bool
  unfolding format
  solana_digest auth none s = false
  solana_digest auth (some public_key) none = false
  solana_digest auth (some public_key) (some signature) =
      lib.ed25519_verify public_key (format auth) signature

  unfoldable pub compute_auth_digest : AuthMessage → String → Bool
  unfolding is_evm_address decode_sig_flexible evm_digest solana_digest
  compute_auth_digest auth sig_input =
      if is_evm_address auth.auth_key
      then evm_digest auth (decode_sig_flexible sig_input)
      else solana_digest auth (lib.base58_decode auth.auth_key) (lib.base64_decode sig_input)
