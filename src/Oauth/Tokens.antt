-- ===== src/Oauth/Tokens.antt =====
-- What a token of api/oauth/handler.go rests on.
use tradeverse_api.Prelude.{
  ℕ, String, len, ◌≤◌, none, some, ◌≡◌, ◌≢◌, ◌⊎◌, arith, eq_iff, inl, inr, Option-cases,
}
use tradeverse_api.Web.{Clock}
use tradeverse_api.Oauth.{
  CodeData, CodeStore, lookup, take_code, token, Env, TokenReq, claims_for, token_handler, redeemed,
}

-- The code was issued with this data, has not expired, names the same redirect URI, and its
-- challenge, if there is one, is the digest of the verifier; the token carries its user and client.
pub record Backed (env : Env) (clock : Clock) (req : TokenReq) (d : CodeData) (t : String)
    : Type 0 where
  pub in_time : clock 0 ≤ d.expires_at
  pub same_uri : d.redirect_uri ≡ req.redirect_uri
  pub verified : (len d.code_challenge ≡ 0) ⊎ (env.digest req.code_verifier ≡ d.code_challenge)
  pub signed : env.sign (claims_for clock d) ≡ some t

redeemed-Backed :
    (env : Env) (clock : Clock) (req : TokenReq) (d : CodeData) (t : String) (n : ℕ)
    → redeemed env clock req (some d) ≡ token t n
    → Backed env clock req d t
unfolding redeemed
redeemed-Backed env clock req d t n e = record {
  in_time = ground arith;
  same_uri = ground (arith, eq_iff d.redirect_uri req.redirect_uri);
  verified = ground (arith, eq_iff (env.digest req.code_verifier) d.code_challenge);
  signed = ground arith;
}

unknown_no_token :
    (env : Env) (clock : Clock) (req : TokenReq) (m : CodeStore) (t : String) (n : ℕ)
    → lookup req.code m ≡ none
    → (token_handler env clock (some req) m).0 ≢ token t n
unfolding token_handler take_code redeemed
unknown_no_token env clock req m t n h e = ground arith

-- Whatever is asked of it, `token_handler` gives a token only for a code that is in the store with
-- data that backs the token.
pub token_handler-Backed :
    (env : Env) (clock : Clock) (req : TokenReq) (m : CodeStore) (t : String) (n : ℕ)
    → (token_handler env clock (some req) m).0 ≡ token t n
    → (d : CodeData) × (lookup req.code m ≡ some d) × Backed env clock req d t
unfolding token_handler take_code
token_handler-Backed env clock req m t n e = elim (Option-cases (lookup req.code m)) [
  | inl h ↦ absurd (unknown_no_token env clock req m t n h e)
  | inr (d, h) ↦ (d, h, redeemed-Backed env clock req d t n (ground arith))
]
