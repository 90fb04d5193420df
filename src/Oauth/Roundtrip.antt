-- ===== src/Oauth/Roundtrip.antt =====
-- The whole flow of api/oauth: a login's code, its token, and the token's use.
use tradeverse_api.Prelude.{
  refl, ℕ, ◌+◌, ◌*◌, ◌≤◌, ◌<◌, String, len, true, ◌==◌, if◌then◌else◌, none, some, ◌≡◌, ◌≢◌, arith,
  eq_iff, ap, ◌∙◌,
}
use text.Mathlib.Text.{starts_with}
use tradeverse_api.Web.{Clock, second, unix}
use tradeverse_api.Orm.{Query}
use tradeverse_api.Model.Game.{GameApp}
use tradeverse_api.Oauth.{
  CodeStore, put_code, take_code, redirect, token, Env, AuthorizeReq, TokenReq, Claims, claims_for,
  issued, authorize_handler, token_handler, redeemed, bearer, granted, authz_middleware,
}

-- What the JWT library promises: a token that was signed with the key is valid until it expires.
abbrev pub JwtValid : Env → Type 0
JwtValid env =
    (claims : Claims) (t : String) (now exp : ℕ)
    → env.sign claims ≡ some t
    → claims.exp ≡ some exp
    → unix now < exp
    → env.parse now t ≡ some claims

-- A user who is logged in asks for a code, with PKCE, on behalf of a client that is registered with
-- a prefix of the redirect URI.
pub record CanAuthorize (env : Env) (req : AuthorizeReq) (app : GameApp) (c url : String)
    : Type 0 where
  pub client_given : len req.client_id ≢ 0
  pub uri_given : len req.redirect_uri ≢ 0
  pub asks_code : req.response_type ≡ "code"
  pub client_found : env.game_app req.client_id ≡ Query.found app
  pub client_known : app.id ≢ 0
  pub uri_allowed : starts_with req.redirect_uri app.oauth_callback ≡ true
  pub method_s256 : req.code_challenge_method ≡ "S256"
  pub challenge_given : len req.code_challenge ≢ 0
  pub logged_in : len env.session_uid ≢ 0
  pub drawn : env.gen_code ≡ some c
  pub drawn_given : len c ≢ 0
  pub called_back :
      env.callback req.redirect_uri c (if len req.state == 0 then none else some req.state)
      ≡ some url

-- The client's request for the token: within five minutes, with the verifier of the challenge.
pub record CanRedeem (env : Env) (clock clock' : Clock) (req : AuthorizeReq) (c : String)
    (treq : TokenReq) (t : String) : Type 0 where
  pub grant : treq.grant_type ≡ "authorization_code"
  pub same_code : treq.code ≡ c
  pub same_uri : treq.redirect_uri ≡ req.redirect_uri
  pub verifier_given : len treq.code_verifier ≢ 0
  pub verifier : env.digest treq.code_verifier ≡ req.code_challenge
  pub in_time : clock' 0 ≤ clock 0 + 5 * 60 * second
  pub signed : env.sign (claims_for clock' (issued env clock req)) ≡ some t

module _ (env : Env) (clock clock' clock'' : Clock) (req : AuthorizeReq) (app : GameApp)
    (c url t header : String) (treq : TokenReq) (m : CodeStore)
    (can : CanAuthorize env req app c url) (redeems : CanRedeem env clock clock' req c treq t) where
  authorized :
      authorize_handler env clock req m ≡ (redirect url, put_code c (issued env clock req) m)
  unfolding authorize_handler
  authorized = ground (
    arith,
    can.client_given,
    can.uri_given,
    can.asks_code,
    eq_iff req.response_type "code",
    can.client_found,
    can.client_known,
    can.uri_allowed,
    can.challenge_given,
    can.logged_in,
    can.drawn,
    can.called_back,
  )

  stored :
      (take_code treq.code (put_code c (issued env clock req) m)).0 ≡ some (issued env clock req)
  unfolding take_code
  stored = ground (arith, redeems.same_code, eq_iff c treq.code)

  redeemed_token : redeemed env clock' treq (some (issued env clock req)) ≡ token t 3600
  unfolding redeemed
  redeemed_token = ground (
    arith,
    can.method_s256,
    eq_iff req.code_challenge_method "S256",
    can.challenge_given,
    redeems.in_time,
    redeems.same_uri,
    eq_iff req.redirect_uri treq.redirect_uri,
    redeems.verifier_given,
    redeems.verifier,
    eq_iff (env.digest treq.code_verifier) req.code_challenge,
    redeems.signed,
  )

  handed_over :
      (token_handler env clock' (some treq) (put_code c (issued env clock req) m)).0 ≡ token t 3600
  unfolding token_handler
  handed_over = ground (
    arith,
    redeems.grant,
    eq_iff treq.grant_type "authorization_code",
    ap len redeems.same_code,
    ap len redeems.same_uri,
    can.drawn_given,
    can.uri_given,
    stored,
    redeemed_token,
  )

  used :
      JwtValid env
      → bearer header ≡ some t
      → unix (clock'' 0) < unix (clock' 1 + 10 * 3600 * second)
      → authz_middleware env clock'' header ≡ granted env.session_uid req.client_id
  unfolding authz_middleware
  used jwt b h = ground (
    arith,
    b,
    jwt (claims_for clock' (issued env clock req)) t (clock'' 0)
        (unix (clock' 1 + 10 * 3600 * second)) redeems.signed refl h,
  )

  -- If a user who is logged in authorizes a client with PKCE, and the client redeems the code next,
  -- within five minutes and with the right verifier: it is given a token, and the middleware takes a
  -- header with this token, within the ten hours that the token is for, as the user's and the
  -- client's. The JWT library is relied on to accept what it has signed.
  pub code_flow_grants :
      JwtValid env
      → bearer header ≡ some t
      → unix (clock'' 0) < unix (clock' 1 + 10 * 3600 * second)
      → ((authorize_handler env clock req m).0 ≡ redirect url)
        × ((token_handler env clock' (some treq) (authorize_handler env clock req m).1).0
            ≡ token t 3600)
        × (authz_middleware env clock'' header ≡ granted env.session_uid req.client_id)
  code_flow_grants jwt b h = (
    ap (λ x. x.0) authorized,
    ap (λ x. (token_handler env clock' (some treq) x.1).0) authorized ∙ handed_over,
    used jwt b h,
  )
