-- ===== src/Oauth.antt =====
-- The authorization server, api/oauth/handler.go, and the middleware that reads its tokens,
-- api/oauth/jwt_middleware.go. The codes live in memory, behind a mutex; the database, the session,
-- `net/url`, the random bytes, the digest and the JWT library (github.com/golang-jwt/jwt) are
-- arguments.
use tradeverse_api.Prelude.{
  ℕ, zero, suc, ◌*◌, ◌+◌, String, len, Bool, true, false, not, ◌&&◌, ◌||◌, List, [], ◌∷◌, ◌++◌, ltb,
  leb, ◌==◌, str_eq, if◌then◌else◌, Option, none, some, Exit, next, exit, ◌>>=◌, ◌>>◌, return_if,
  answer,
}
use Prim.Native.Char.{code}
use Prim.Native.String.{◌++◌ as joined}
use text.Mathlib.Text.{starts_with}
use tradeverse_api.Web.{Time, Clock, second, unix}
use tradeverse_api.Orm.{Query, loaded}
use tradeverse_api.Model.Game.{GameApp, no_app}
pub mod Codes
pub mod Tokens
pub mod Roundtrip
pub mod Tests

-- `codeData`
pub record CodeData : Type 0 where
  pub user_id : String
  pub client_id : String
  pub redirect_uri : String
  pub code_challenge : String
  pub expires_at : Time

-- `codeStore`, a map: the first entry of a key is the one that counts.
abbrev pub CodeStore : Type 0
CodeStore = List (String × CodeData)

abbrev pub put_code : String → CodeData → CodeStore → CodeStore
put_code c code_data m = (c, code_data) ∷ m

pub lookup : String → CodeStore → Option CodeData
lookup c [] = none
lookup c (e ∷ m) = let rest = lookup c m in if str_eq e.0 c then some e.1 else rest

-- `delete`
pub without : String → CodeStore → CodeStore
without c [] = []
without c (e ∷ m) = let rest = without c m in if str_eq e.0 c then rest else e ∷ rest

pub take_code : String → CodeStore → Option CodeData × CodeStore
unfolding lookup without
take_code c m = elim (lookup c m) [ none ↦ (none, m) | some d ↦ (some d, without c m) ]

-- What the handlers answer: an error with its status, a redirect, or a token with its lifetime.
pub data Reply : Type 0 where
  refused : ℕ → String → Reply
  redirect : String → Reply
  token : String → ℕ → Reply

-- `jwt.MapClaims`, of which "sub" and "aud" are read as "" where they are absent.
pub record Claims : Type 0 where
  pub sub : String
  pub aud : String
  pub exp : Option ℕ
  pub iat : ℕ

pub record Env : Type 0 where
  -- client_id = ?
  pub game_app : String → Query GameApp
  -- `sess.Get("uid")`, "" without a login
  pub session_uid : String
  -- `genCode(32)`
  pub gen_code : Option String
  -- `url.QueryEscape`
  pub query_escape : String → String
  -- the URL with the parameters "code" and "state" set; `none` if `url.Parse` fails
  pub callback : String → String → Option String → Option String
  -- `base64.RawURLEncoding` of `sha256.Sum256`
  pub digest : String → String
  -- `SignedString`
  pub sign : Claims → Option String
  -- `jwt.Parse` with the key for HS256 only, at a time: the claims of a token that is valid
  pub parse : Time → String → Option Claims

pub record AuthorizeReq : Type 0 where
  pub client_id : String
  pub redirect_uri : String
  pub response_type : String
  pub state : String
  pub code_challenge : String
  pub code_challenge_method : String
  pub request_uri : String

-- The query of `AuthorizeHandler` up to the login.
checked_authorize : Env → AuthorizeReq → Exit Reply (Unit {0})
checked_authorize env req = do
  return_if
      (len req.client_id == 0 || len req.redirect_uri == 0 || not (str_eq req.response_type "code"))
      (refused 400 "invalid_request")
  let app = loaded no_app (env.game_app req.client_id)
  return_if (app.id == 0) (refused 400 "unknown_client")
  return_if (not (starts_with req.redirect_uri app.oauth_callback))
      (refused 400 "invalid_redirect_uri")
  return_if (str_eq req.code_challenge_method "S256" && len req.code_challenge == 0)
      (refused 400 "invalid_pkce_params")
  return_if (len env.session_uid == 0)
      (redirect (joined "/oauth/login?return_url=" (env.query_escape req.request_uri)))
  next tt

new_code : Env → Exit Reply String
new_code env = elim env.gen_code [ none ↦ exit (refused 500 "server_error") | some c ↦ next c ]

abbrev pub issued : Env → Clock → AuthorizeReq → CodeData
issued env clock req = record {
  user_id = env.session_uid;
  client_id = req.client_id;
  redirect_uri = req.redirect_uri;
  code_challenge =
      if str_eq req.code_challenge_method "S256" && not (len req.code_challenge == 0)
      then req.code_challenge
      else "";
  expires_at = clock 0 + 5 * 60 * second;
}

called_back : Env → AuthorizeReq → String → Reply
called_back env req c =
    elim (env.callback req.redirect_uri c (if len req.state == 0 then none else some req.state)) [
      | none ↦ refused 500 "server_error"
      | some url ↦ redirect url
    ]

-- `AuthorizeHandler`: the code is stored before the redirect URI is parsed.
pub authorize_handler : Env → Clock → AuthorizeReq → CodeStore → Reply × CodeStore
unfolding checked_authorize new_code called_back
authorize_handler env clock req m = elim (checked_authorize env req >>= λ _. new_code env) [
  | exit r ↦ (r, m)
  | next c ↦ (called_back env req c, put_code c (issued env clock req) m)
]

pub record TokenReq : Type 0 where
  pub grant_type : String
  pub code : String
  pub redirect_uri : String
  pub code_verifier : String

-- The checks of `TokenHandler` on the request alone; a request that cannot be bound is `none`.
bound_token_req : Option TokenReq → Exit Reply TokenReq
bound_token_req none = exit (refused 400 "invalid_grant")
bound_token_req (some req) = do
  return_if
      (not (str_eq req.grant_type "authorization_code")
        || len req.code == 0
        || len req.redirect_uri == 0)
      (refused 400 "invalid_grant")
  next req

taken_code : Clock → Option CodeData → Exit Reply CodeData
taken_code clock none = exit (refused 400 "invalid_or_expired_code")
taken_code clock (some code_data) = do
  return_if (ltb code_data.expires_at (clock 0)) (refused 400 "invalid_or_expired_code")
  next code_data

checked_pkce : Env → CodeData → TokenReq → Exit Reply (Unit {0})
checked_pkce env code_data req = if len code_data.code_challenge == 0 then next tt else do
  return_if (len req.code_verifier == 0) (refused 400 "pkce_required")
  return_if (not (str_eq (env.digest req.code_verifier) code_data.code_challenge))
      (refused 400 "pkce_verification_failed")

-- Ten hours.
abbrev pub claims_for : Clock → CodeData → Claims
claims_for clock code_data = record {
  sub = code_data.user_id;
  aud = code_data.client_id;
  exp = some (unix (clock 1 + 10 * 3600 * second));
  iat = unix (clock 2);
}

signed_token : Env → Claims → Reply
signed_token env claims = elim (env.sign claims) [
  | none ↦ refused 500 "server_error"
  | some t ↦ token t 3600
]

redeemed : Env → Clock → TokenReq → Option CodeData → Reply
unfolding taken_code checked_pkce signed_token
redeemed env clock req taken = answer do
  code_data ← taken_code clock taken
  return_if (not (str_eq code_data.redirect_uri req.redirect_uri))
      (refused 400 "redirect_uri_mismatch")
  checked_pkce env code_data req
  next (signed_token env (claims_for clock code_data))

-- `TokenHandler`: the code is taken before anything about it is checked.
pub token_handler : Env → Clock → Option TokenReq → CodeStore → Reply × CodeStore
unfolding bound_token_req take_code redeemed
token_handler env clock req m = elim (bound_token_req req) [
  | exit r ↦ (r, m)
  | next req' ↦ (redeemed env clock req' (take_code req'.code m).0, (take_code req'.code m).1)
]

-- `unicode.IsSpace`
is_space : ℕ → Bool
is_space c =
    (leb 9 c && leb c 13)
    || c == 32
    || c == 133
    || c == 160
    || c == 5760
    || (leb 8192 c && leb c 8202)
    || c == 8232
    || c == 8233
    || c == 8239
    || c == 8287
    || c == 12288

trim_left : String → String
unfolding is_space
trim_left String.[] = ""
trim_left (String.◌∷◌ c s) =
    let rest = trim_left s in if is_space (code c) then rest else String.◌∷◌ c s

trim_right : String → String
unfolding is_space
trim_right String.[] = ""
trim_right (String.◌∷◌ c s) =
    let rest = trim_right s in if is_space (code c) && len rest == 0 then "" else String.◌∷◌ c rest

drop_text : ℕ → String → String
drop_text zero s = s
drop_text (suc n) String.[] = ""
drop_text (suc n) (String.◌∷◌ c s) = drop_text n s

-- The token of an "Authorization" header.
pub bearer : String → Option String
unfolding trim_left trim_right drop_text
bearer ah =
    if starts_with ah "Bearer " then some (trim_right (trim_left (drop_text 7 ah))) else none

-- What `AuthzMiddleware` puts into the context, "" where it puts nothing, or the error of its 401.
pub data Access : Type 0 where
  denied : String → Access
  granted : String → String → Access

expired : Clock → Option ℕ → Bool
expired clock none = false
expired clock (some exp) = ltb exp (unix (clock 0))

checked_claims : Clock → Option Claims → Access
unfolding expired
checked_claims clock none = denied "invalid_token"
checked_claims clock (some claims) =
    if expired clock claims.exp then denied "token_expired" else granted claims.sub claims.aud

pub authz_middleware : Env → Clock → String → Access
unfolding bearer checked_claims
authz_middleware env clock ah = elim (bearer ah) [
  | none ↦ denied "missing_bearer"
  | some t ↦ checked_claims clock (env.parse (clock 0) t)
]
