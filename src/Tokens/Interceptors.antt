-- ===== src/Tokens/Interceptors.antt =====
-- `TokenInterceptor` and `DevTokenInterceptor`, api/interceptor: a request goes on with what its
-- token says, or is aborted.
use tradeverse_api.Prelude.{
  ℕ, String, Bool, not, List, [], ◌∷◌, Option, none, some, Exit, next, exit, ◌>>=◌, ◌>>◌, return_if,
  answer,
}
use tradeverse_api.Prelude.Integers.{ℤ, sub_int, above}
use tradeverse_api.Codes
use tradeverse_api.Web.{Clock, unix}
use tradeverse_api.Tokens.{Bytes, Cipher, decrypt, token_seconds}
use tradeverse_api.Tokens.Numerals.{bar, split, parse_int}

-- What the middleware sets in the context of a request that goes on.
pub data Gate (A : Type 0) : Type 0 where
  passed : A → Gate A
  -- the code, the message and the timestamp of the response
  aborted : ℕ → String → ℕ → Gate A

pub record Identity : Type 0 where
  pub main_id : Bytes
  pub provider_id : Bytes
  pub provider_type : Bytes

-- `time.Now().Unix()-expireTs > int64(common.TOKEN_DURATION.Seconds())`
unfoldable pub expired : ℕ → ℤ → Bool
expired now expire_ts = above (sub_int (ℤ.pos now) expire_ts) token_seconds

-- `makeFaileRes`; its clock is the second one that a middleware reads.
abbrev pub refuse : {A : Type 0} → Clock → String → Gate A
refuse clock m = Gate.aborted Codes.security m (unix (clock 1))

-- The header, or the cookie "AUTH_TOKEN" where the header is not there.
abbrev pub chosen_token : Bytes → Option Bytes → Bytes
chosen_token [] none = []
chosen_token [] (some cookie) = cookie
chosen_token (c ∷ cs) cookie = c ∷ cs

module _ (cipher : Cipher) (clock : Clock) where
  decrypted : {A : Type 0} → Bytes → Exit (Gate A) Bytes
  unfolding decrypt
  decrypted token_str = elim (decrypt cipher token_str) [
    | none ↦ exit (refuse clock "token check failed")
    | some token ↦ next token
  ]

  -- The time at which a token expires must be a number, not out of time.
  checked_expiry : {A : Type 0} → Bytes → Exit (Gate A) (Unit {0})
  unfolding expired
  checked_expiry text = elim (parse_int text) [
    | none ↦ exit (refuse clock "token format error")
    | some ts ↦ return_if (expired (unix (clock 0)) ts) (refuse clock "token expired error")
  ]

  user_parts : List Bytes → Exit (Gate Identity) Identity
  unfolding checked_expiry
  user_parts (a ∷ b ∷ c ∷ d ∷ []) = do
    checked_expiry d
    let identity : Identity = record { main_id = a; provider_id = b; provider_type = c }
    next identity
  user_parts _ = exit (refuse clock "token length error")

  -- The first argument: whether `HttpInterceptor` has set "HEADERS".
  unfoldable pub token_interceptor : Bool → Bytes → Option Bytes → Gate Identity
  unfolding decrypted user_parts
  token_interceptor has_headers header cookie = answer do
    return_if (not has_headers) (refuse clock "token check failed")
    token ← decrypted (chosen_token header cookie)
    identity ← user_parts (split bar token)
    next (Gate.passed identity)

  dev_parts : List Bytes → Exit (Gate Bytes) Bytes
  unfolding checked_expiry
  dev_parts (a ∷ b ∷ []) = do checked_expiry b; next a
  dev_parts _ = exit (refuse clock "token length error")

  unfoldable pub dev_token_interceptor : Bool → Bytes → Gate Bytes
  unfolding decrypted dev_parts
  dev_token_interceptor has_headers header = answer do
    return_if (not has_headers) (refuse clock "token check failed")
    token ← decrypted header
    dev_id ← dev_parts (split bar token)
    next (Gate.passed dev_id)
