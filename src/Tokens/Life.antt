-- ===== src/Tokens/Life.antt =====
-- From the encryption of a token to the middleware that reads it: how long a token lives, and which
-- texts are refused.
use tradeverse_api.Prelude.{
  ℕ, ◌+◌, ◌*◌, ◌<◌, ◌≤◌, not, true, [], ◌∷◌, ◌++◌, length, leb, length-append, take_front,
  drop_front, if◌then◌else◌, none, some, ◌≡◌, refl, ap, ◌∙◌, arith, Option-cases, inl, inr, ◌⊎◌,
}
use tradeverse_api.Prelude.Integers.{ℤ, i64_half}
use tradeverse_api.Codes
use tradeverse_api.Web.{Clock, Time, second, unix}
use tradeverse_api.Tokens.{
  Bytes, Cipher, Aead, key, encrypt, decrypt, opened, token_seconds, expire_ts,
}
use tradeverse_api.Tokens.Numerals.{
  bar, split, format_uint, Free, Free-append, split_part, split_last, format_uint-Free,
  parse_int-format_uint,
}
use tradeverse_api.Tokens.Texts.{user_token, dev_token, verify_token}
use tradeverse_api.Tokens.Interceptors.{
  Gate, expired, chosen_token, token_interceptor, dev_token_interceptor,
}

-- What the code relies on: base64 is read back, random bytes come in the number that was asked for,
-- and AES-GCM opens what it has sealed with the same nonce.
pub record IsLawful (cipher : Cipher) : Type 0 where
  pub decode-encode : (b : Bytes) → cipher.decode (cipher.encode b) ≡ some b
  pub random_length : (n : ℕ) (r : Bytes) → cipher.read_random n ≡ some r → length r ≡ n
  pub open-seal :
      (gcm : Aead) (nonce text : Bytes)
      → cipher.new_gcm key ≡ some gcm
      → length nonce ≡ gcm.nonce_size
      → gcm.open_sealed nonce (gcm.seal nonce text) ≡ some text

opened-seal :
    (gcm : Aead) (cipher : Cipher) (nonce text : Bytes)
    → IsLawful cipher
    → cipher.new_gcm key ≡ some gcm
    → length nonce ≡ gcm.nonce_size
    → opened cipher (nonce ++ gcm.seal nonce text) gcm ≡ some text
unfolding opened
opened-seal gcm cipher nonce text law e h = ground (
  arith,
  take_front nonce (gcm.seal nonce text),
  drop_front nonce (gcm.seal nonce text),
  length-append nonce (gcm.seal nonce text),
  law.open-seal gcm nonce text e h,
)

-- What `encrypt` answers, `decrypt` turns back into the text.
pub decrypt-encrypt :
    (cipher : Cipher) (text token : Bytes)
    → IsLawful cipher
    → encrypt cipher text ≡ some token
    → decrypt cipher token ≡ some text
unfolding encrypt decrypt
decrypt-encrypt cipher text token law e = elim (Option-cases (cipher.new_gcm key)) [
  | inl e' ↦ ground arith
  | inr (gcm, g) ↦ elim (Option-cases (cipher.read_random gcm.nonce_size)) [
    | inl e' ↦ ground arith
    | inr (nonce, r) ↦ ground (
      arith,
      law.decode-encode (nonce ++ gcm.seal nonce text),
      opened-seal gcm cipher nonce text law g (law.random_length gcm.nonce_size nonce r),
    )
  ]
]

-- An expiry is taken up to ten days after it.
pub expired_late :
    (now ts : ℕ)
    → now < i64_half
    → ts < i64_half
    → expired now (ℤ.pos ts) ≡ not (leb now (ts + token_seconds))
unfolding expired
expired_late now ts h k = ground arith

-- The parts of a token of a user.
split-user_token :
    (m p k ts : ℕ)
    → split bar (user_token m p k ts)
      ≡ format_uint m ∷ format_uint p ∷ format_uint k ∷ format_uint ts ∷ []
unfolding user_token
split-user_token m p k ts =
    split_part bar _ (format_uint-Free bar m refl)
    ∙ ap (format_uint m ∷◌) (
        split_part bar _ (format_uint-Free bar p refl)
        ∙ ap (format_uint p ∷◌) (
            split_part bar _ (format_uint-Free bar k refl)
            ∙ ap (format_uint k ∷◌) (split_last bar (format_uint-Free bar ts refl))))

split-dev_token : (d ts : ℕ) → split bar (dev_token d ts) ≡ format_uint d ∷ format_uint ts ∷ []
unfolding dev_token
split-dev_token d ts =
    split_part bar _ (format_uint-Free bar d refl)
    ∙ ap (format_uint d ∷◌) (split_last bar (format_uint-Free bar ts refl))

-- There is no bar in what `Verify` writes.
split-verify_token : (u now : ℕ) → split bar (verify_token u now) ≡ verify_token u now ∷ []
unfolding verify_token
split-verify_token u now = split_last bar (
    Free-append (format_uint-Free bar u refl) (Free.free_cons refl (format_uint-Free bar now refl)))

chosen_alone : (token : Bytes) → chosen_token token none ≡ token
chosen_alone [] = refl
chosen_alone (c ∷ cs) = refl

module _ (cipher : Cipher) (law : IsLawful cipher) (clock : Clock) where
  -- If the cipher is lawful: a token that a login has encrypted is read by the middleware with
  -- the numbers of the login up to twice the `TOKEN_DURATION` after the login, and is refused
  -- from then on, with the clocks between 1970 and 2 ^ 63 seconds.
  pub user_token_life :
      (m p k : ℕ) (now : Time) (token : Bytes)
      → encrypt cipher (user_token m p k (expire_ts now)) ≡ some token
      → 62135596800 * second ≤ now
      → expire_ts now < i64_half
      → unix (clock 0) < i64_half
      → token_interceptor cipher clock true token none ≡ (
          if leb (unix (clock 0)) (unix now + 2 * token_seconds)
          then Gate.passed (record {
            main_id = format_uint m;
            provider_id = format_uint p;
            provider_type = format_uint k;
          })
          else Gate.aborted Codes.security "token expired error" (unix (clock 1)))
  unfolding token_interceptor
  user_token_life m p k now token e start h l = ground (
    arith,
    chosen_alone token,
    decrypt-encrypt cipher (user_token m p k (expire_ts now)) token law e,
    split-user_token m p k (expire_ts now),
    parse_int-format_uint (expire_ts now) h,
    expired_late (unix (clock 0)) (expire_ts now) l h,
  )

  pub dev_token_life :
      (d : ℕ) (now : Time) (token : Bytes)
      → encrypt cipher (dev_token d (expire_ts now)) ≡ some token
      → 62135596800 * second ≤ now
      → expire_ts now < i64_half
      → unix (clock 0) < i64_half
      → dev_token_interceptor cipher clock true token ≡ (
          if leb (unix (clock 0)) (unix now + 2 * token_seconds)
          then Gate.passed (format_uint d)
          else Gate.aborted Codes.security "token expired error" (unix (clock 1)))
  unfolding dev_token_interceptor
  dev_token_life d now token e start h l = ground (
    arith,
    decrypt-encrypt cipher (dev_token d (expire_ts now)) token law e,
    split-dev_token d (expire_ts now),
    parse_int-format_uint (expire_ts now) h,
    expired_late (unix (clock 0)) (expire_ts now) l h,
  )

  -- The token that `Verify` hands out with its success is refused at once, and so is the token of a
  -- developer: neither has the four parts of a login.
  pub foreign_refused :
      (a b : ℕ) (text token : Bytes)
      → (text ≡ verify_token a b) ⊎ (text ≡ dev_token a b)
      → encrypt cipher text ≡ some token
      → token_interceptor cipher clock true token none
        ≡ Gate.aborted Codes.security "token length error" (unix (clock 1))
  unfolding token_interceptor
  foreign_refused a b text token (inl v) e =
      ground
        (arith, chosen_alone token, decrypt-encrypt cipher text token law e, split-verify_token a b)
  foreign_refused a b text token (inr v) e =
      ground
        (arith, chosen_alone token, decrypt-encrypt cipher text token law e, split-dev_token a b)
