-- ===== src/Oauth/Tests.antt =====
-- User 7 and a client "app"; the digest of a text is the text, and a token's text is fixed.
use tradeverse_api.Prelude.{
  ℕ, Option, none, false, some, Bool, str_eq, ◌&&◌, eq_iff, ◌+◌, ◌*◌, true, [], ◌∷◌, ◌==◌,
  if◌then◌else◌, ltb, ◌≡◌, ◌≢◌, ◌⊎◌, refl, arith, ap,
}
use tradeverse_api.Web.{Clock, second, unix}
use tradeverse_api.Orm.{Query}
use tradeverse_api.Model.Game.{GameApp, no_app}
use tradeverse_api.Oauth.{
  CodeData, put_code, lookup, take_code, refused, redirect, token, Env, redeemed, AuthorizeReq,
  TokenReq, Claims, claims_for, authorize_handler, token_handler, bearer, granted, authz_middleware,
}
use tradeverse_api.Oauth.Codes.{redeeming, after_all, code_single_use}
use tradeverse_api.Oauth.Tokens.{Backed, token_handler-Backed}
use tradeverse_api.Oauth.Roundtrip.{JwtValid, CanAuthorize, CanRedeem, code_flow_grants}

abbrev app : GameApp
app = record no_app { id = 2; client_id = "app"; oauth_callback = "https://app" }

-- 2024-12-31, as the clock reads it.
abbrev clock : Clock
clock n = 63871200000 * second

abbrev req : AuthorizeReq
req = record {
  client_id = "app";
  redirect_uri = "https://app/cb";
  response_type = "code";
  state = "";
  code_challenge = "secret";
  code_challenge_method = "S256";
  request_uri = "/oauth/authorize";
}

abbrev user_data : CodeData
user_data = record {
  user_id = "7";
  client_id = "app";
  redirect_uri = "https://app/cb";
  code_challenge = "secret";
  expires_at = clock 0 + 5 * 60 * second;
}

abbrev signed : Claims
signed = claims_for clock user_data

abbrev expiry : ℕ
expiry = unix (clock 1 + 10 * 3600 * second)

abbrev same_exp : Option ℕ → Bool
same_exp none = false
same_exp (some exp) = exp == expiry

abbrev is_signed : Claims → Bool
is_signed claims =
    str_eq claims.sub signed.sub
    && str_eq claims.aud signed.aud
    && same_exp claims.exp
    && (claims.iat == signed.iat)

-- Only these claims are ever signed, and their token is valid until it expires.
abbrev env : Env
env = record {
  game_app = λ id. Query.found app;
  session_uid = "7";
  gen_code = some "c0de";
  query_escape = λ s. s;
  callback = λ uri c state. some "https://app/cb?code=c0de";
  digest = λ s. s;
  sign = λ claims. if is_signed claims then some "tok" else none;
  parse = λ now t. if str_eq t "tok" && ltb (unix now) expiry then some signed else none;
}

abbrev treq : TokenReq
treq = record {
  grant_type = "authorization_code";
  code = "c0de";
  redirect_uri = "https://app/cb";
  code_verifier = "secret";
}

given : (token_handler env clock (some treq) (put_code "c0de" user_data [])).0 ≡ token "tok" 3600
unfolding token_handler take_code redeemed lookup
given = refl

is_signed_eq : (claims : Claims) → is_signed claims ≡ true → claims ≡ signed
is_signed_eq claims e = ground (arith, eq_iff claims.sub signed.sub, eq_iff claims.aud signed.aud)

env-JwtValid : JwtValid env
env-JwtValid claims t now exp s ee h =
    let same : is_signed claims ≡ true = ground arith in
    let text : "tok" ≡ t = ground arith in
    ground
      (arith, is_signed_eq claims same, ap (λ c. c.exp) (is_signed_eq claims same), eq_iff t "tok")

token_handler-Backed_example :
    (d : CodeData) × (lookup "c0de" (put_code "c0de" user_data []) ≡ some d)
    × Backed env clock treq d "tok"
token_handler-Backed_example =
    token_handler-Backed env clock treq (put_code "c0de" user_data []) "tok" 3600 given

past :
    (token_handler env clock (some treq) (put_code "c0de" user_data [])).0
    ≢ refused 400 "invalid_grant"
past e = ground (arith, given)

code_single_use_example :
    let m' =
      after_all
        (redeeming env clock (some treq) ∷ [])
        (token_handler env clock (some treq) (put_code "c0de" user_data [])).1 in
    ((token_handler env clock (some treq) m').0 ≡ refused 400 "invalid_grant")
    ⊎ ((token_handler env clock (some treq) m').0 ≡ refused 400 "invalid_or_expired_code")
code_single_use_example =
    code_single_use env env clock clock treq treq (put_code "c0de" user_data [])
      (redeeming env clock (some treq) ∷ []) past tt refl

bearer_runs : bearer "Bearer  tok " ≡ some "tok"
unfolding bearer
bearer_runs = refl

env-CanAuthorize : CanAuthorize env req app "c0de" "https://app/cb?code=c0de"
env-CanAuthorize = record {
  client_given = ground arith;
  uri_given = ground arith;
  asks_code = refl;
  client_found = refl;
  client_known = ground arith;
  uri_allowed = refl;
  method_s256 = refl;
  challenge_given = ground arith;
  logged_in = ground arith;
  drawn = refl;
  drawn_given = ground arith;
  called_back = refl;
}

env-CanRedeem : CanRedeem env clock clock req "c0de" treq "tok"
env-CanRedeem = record {
  grant = refl;
  same_code = refl;
  same_uri = refl;
  verifier_given = ground arith;
  verifier = refl;
  in_time = ground arith;
  signed = refl;
}

code_flow_grants_example :
    ((authorize_handler env clock req []).0 ≡ redirect "https://app/cb?code=c0de")
    × ((token_handler env clock (some treq) (authorize_handler env clock req []).1).0
        ≡ token "tok" 3600)
    × (authz_middleware env clock "Bearer  tok " ≡ granted "7" "app")
code_flow_grants_example =
    code_flow_grants env clock clock clock req app "c0de" "https://app/cb?code=c0de" "tok"
      "Bearer  tok " treq [] env-CanAuthorize env-CanRedeem env-JwtValid bearer_runs (ground arith)
