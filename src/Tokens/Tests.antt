-- ===== src/Tokens/Tests.antt =====
-- A login of user 7, with a cipher that changes nothing.
use tradeverse_api.Prelude.{
  ℕ, ◌+◌, ◌*◌, String, List, [], ◌∷◌, codes, length, none, some, ◌||◌, ap, subst, ◌≡◌, refl, arith,
  if◌then◌else◌, str_eq, Option, suc, zero,
}
use tradeverse_api.Web.{Clock, Time, second}
use tradeverse_api.Tokens.{Bytes, Aead, Cipher, encrypt, decrypt, expire_ts}
use tradeverse_api.Tokens.Numerals.{format_uint}
use tradeverse_api.Tokens.Texts.{user_token, verify_token}
use tradeverse_api.Tokens.Interceptors.{Gate}
use tradeverse_api.Tokens.Channels.{SysChannel, Cache, Context, context, parse, http_interceptor}
use tradeverse_api.Tokens.Life.{IsLawful}
use tradeverse_api.Tokens.Signed.{Signed, http_interceptor-Signed}

-- The nonce is one byte, and sealing leaves the text as it is.
abbrev gcm : Aead
gcm = record { nonce_size = 1; seal = λ n t. t; open_sealed = λ n t. some t }

unfoldable pub zeros : ℕ → Bytes
zeros zero = []
zeros (suc n) = 0 ∷ zeros n

abbrev pub plain : Cipher
plain = record {
  new_gcm = λ k. some gcm;
  read_random = λ n. some (zeros n);
  encode = λ b. b;
  decode = λ b. some b;
}

length-zeros : (n : ℕ) → length (zeros n) ≡ n
unfolding zeros
length-zeros zero = refl
length-zeros (suc n) = rw (length-zeros n)

or_gcm : Option Aead → Aead
or_gcm none = gcm
or_gcm (some g) = g

pub plain-IsLawful : IsLawful plain
unfolding or_gcm
plain-IsLawful = record {
  decode-encode = λ b. refl;
  random_length = λ n r e. ground (arith, length-zeros n);
  open-seal = λ g nonce text e h.
      subst (λ x. x.open_sealed nonce (x.seal nonce text) ≡ some text) (ap or_gcm e) refl;
}

-- 1000 seconds after 1970
abbrev pub now : Time
now = 62135597800 * second

abbrev own_token : Bytes
own_token = 0 ∷ user_token 7 0 0 (expire_ts now)

token_encrypted : encrypt plain (user_token 7 0 0 (expire_ts now)) ≡ some own_token
unfolding encrypt zeros
token_encrypted = refl

token_text : user_token 7 0 0 (expire_ts now) ≡ codes "7|0|0|865000"
unfolding user_token format_uint
token_text = refl

-- Nineteen days later.
abbrev later : Clock
later n = now + 1641600 * second

verify_encrypted : encrypt plain (verify_token 7 1000) ≡ some (0 ∷ verify_token 7 1000)
unfolding encrypt zeros
verify_encrypted = refl

-- A channel of the app 65, whose key is empty, and a digest that changes nothing.
abbrev channel : SysChannel
channel = record {
  id = 1;
  app_id = 65 ∷ [];
  app_key = [];
  status = codes "00";
  chan = codes "http";
  sig_method = codes "SHA256";
  create_time = 0;
  update_time = 0;
}

abbrev no_keys : Cache
no_keys = record { keys = []; valid = 0 }

abbrev find : String → Option (List SysChannel)
find c = if str_eq c "http" then some (channel ∷ []) else none

abbrev header : String → Bytes
header h = if str_eq h "APPID" || str_eq h "SIG" then 65 ∷ [] else []

abbrev answered : Gate Context × Cache
answered = http_interceptor (λ b. b) plain later find no_keys header

http_interceptor-Signed_example : Signed (λ b. b) answered.1.keys answered.0
http_interceptor-Signed_example = http_interceptor-Signed (λ b. b) plain find later no_keys header

let_through : answered.0 ≡ Gate.passed (context (λ b. b) plain later (parse header) none)
unfolding http_interceptor decrypt
let_through = refl
