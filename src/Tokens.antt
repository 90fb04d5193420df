-- ===== src/Tokens.antt =====
-- The tokens of a login: their text, the cipher they go through (security/aes.go), and the
-- middlewares that read them (api/interceptor). A Go string of this tree is the list of its bytes.
-- AES-GCM (crypto/aes, crypto/cipher), crypto/rand and encoding/base64 are arguments.
use tradeverse_api.Prelude.{
  ℕ, ◌*◌, ◌+◌, List, [], ◌∷◌, ◌++◌, codes, ltb, length, if◌then◌else◌, Option, none, some, take,
  drop,
}
use tradeverse_api.Web.{Time, second, unix}
pub mod Numerals
pub mod Texts
pub mod Interceptors
pub mod Channels
pub mod Life
pub mod Signed
pub mod Tests

abbrev pub Bytes : Type 0
Bytes = List ℕ

-- `cipher.AEAD`
pub record Aead : Type 0 where
  pub nonce_size : ℕ
  -- the nonce and the text
  pub seal : Bytes → Bytes → Bytes
  pub open_sealed : Bytes → Bytes → Option Bytes

pub record Cipher : Type 0 where
  -- `aes.NewCipher` and `cipher.NewGCM`
  pub new_gcm : Bytes → Option Aead
  -- `io.ReadFull(rand.Reader, nonce)`, for the size of the nonce
  pub read_random : ℕ → Option Bytes
  -- `base64.StdEncoding`
  pub encode : Bytes → Bytes
  pub decode : Bytes → Option Bytes

-- The key stands in the source.
abbrev pub key : Bytes
key = codes "0123456789abcdef"

module _ (cipher : Cipher) where
  sealed : Bytes → Aead → Option Bytes
  sealed text gcm = elim (cipher.read_random gcm.nonce_size) [
    | none ↦ none
    | some nonce ↦ some (cipher.encode (nonce ++ gcm.seal nonce text))
  ]

  unfoldable pub encrypt : Bytes → Option Bytes
  unfolding sealed
  encrypt text = elim (cipher.new_gcm key) [ none ↦ none | some gcm ↦ sealed text gcm ]

  unfoldable pub opened : Bytes → Aead → Option Bytes
  opened sealed gcm =
      if ltb (length sealed) gcm.nonce_size
      then none
      else gcm.open_sealed (take gcm.nonce_size sealed) (drop gcm.nonce_size sealed)

  unfoldable pub decrypt : Bytes → Option Bytes
  unfolding opened
  decrypt encrypted = elim (cipher.decode encrypted) [
    | none ↦ none
    | some sealed ↦ elim (cipher.new_gcm key) [ none ↦ none | some gcm ↦ opened sealed gcm ]
  ]

-- `TOKEN_DURATION`, ten days
abbrev pub token_seconds : ℕ
token_seconds = 864000

abbrev pub token_duration : ℕ
token_duration = token_seconds * second

-- `time.Now().Add(common.TOKEN_DURATION).Unix()`
abbrev pub expire_ts : Time → ℕ
expire_ts now = unix (now + token_duration)
