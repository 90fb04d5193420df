-- ===== src/Oauth/Codes.antt =====
-- The life of an authorization code in api/oauth/handler.go.
use tradeverse_api.Prelude.{
  String, List, [], ◌∷◌, Option, none, some, ◌≡◌, ◌≢◌, ◌⊎◌, refl, arith, eq_iff, inl, inr,
  Option-cases, ap, ◌∙◌,
}
use tradeverse_api.Web.{Clock}
use tradeverse_api.Oauth.{
  CodeStore, lookup, without, take_code, refused, Env, AuthorizeReq, TokenReq, authorize_handler,
  token_handler, redeemed,
}

-- What happens to the store, each request with its own surroundings and clock.
pub data Event : Type 0 where
  authorizing : Env → Clock → AuthorizeReq → Event
  redeeming : Env → Clock → Option TokenReq → Event

abbrev step : Event → CodeStore → CodeStore
step (authorizing env clock req) m = (authorize_handler env clock req m).1
step (redeeming env clock req) m = (token_handler env clock req m).1

abbrev pub after_all : List Event → CodeStore → CodeStore
after_all [] m = m
after_all (e ∷ es) m = after_all es (step e m)

-- None of the events draws the code again.
abbrev pub NeverDrawn : String → List Event → Type 0
NeverDrawn c [] = Unit
NeverDrawn c (authorizing env clock req ∷ es) = (env.gen_code ≢ some c) × NeverDrawn c es
NeverDrawn c (redeeming env clock req ∷ es) = NeverDrawn c es

lookup-without : (c : String) (m : CodeStore) → lookup c (without c m) ≡ none
unfolding lookup without
lookup-without c [] = refl
lookup-without c (e ∷ m) = ground (arith, lookup-without c m)

lookup_still_none :
    (c k : String) (m : CodeStore) → lookup c m ≡ none → lookup c (without k m) ≡ none
unfolding lookup without
lookup_still_none c k [] h = refl
lookup_still_none c k (e ∷ m) h = ground (arith, lookup_still_none c k m)

take_keeps_none :
    (c k : String) (m : CodeStore) → lookup c m ≡ none → lookup c (take_code k m).1 ≡ none
unfolding take_code
take_keeps_none c k m h = ground (arith, lookup_still_none c k m h)

take_clears : (c : String) (m : CodeStore) → lookup c (take_code c m).1 ≡ none
unfolding take_code
take_clears c m = ground (arith, lookup-without c m)

step_keeps_none :
    (c : String) (e : Event) (m : CodeStore)
    → NeverDrawn c (e ∷ [])
    → lookup c m ≡ none
    → lookup c (step e m) ≡ none
unfolding authorize_handler token_handler lookup
step_keeps_none c (authorizing env clock req) m h n = elim (Option-cases env.gen_code) [
  | inl g ↦ ground arith
  | inr (k, g) ↦ ground (arith, eq_iff k c, h.0)
]
step_keeps_none c (redeeming env clock none) m h n = n
step_keeps_none c (redeeming env clock (some req)) m h n =
    ground (arith, take_keeps_none c req.code m n)

after_all_keeps_none :
    (c : String) (es : List Event) (m : CodeStore)
    → NeverDrawn c es
    → lookup c m ≡ none
    → lookup c (after_all es m) ≡ none
after_all_keeps_none c [] m h n = n
after_all_keeps_none c (authorizing env clock req ∷ es) m h n =
    after_all_keeps_none c es _ h.1 (step_keeps_none c (authorizing env clock req) m (h.0, tt) n)
after_all_keeps_none c (redeeming env clock req ∷ es) m h n =
    after_all_keeps_none c es _ h (step_keeps_none c (redeeming env clock req) m tt n)

used_up :
    (env : Env) (clock : Clock) (req : TokenReq) (m : CodeStore)
    → (token_handler env clock (some req) m).0 ≢ refused 400 "invalid_grant"
    → lookup req.code (token_handler env clock (some req) m).1 ≡ none
unfolding token_handler
used_up env clock req m past = ground (arith, take_clears req.code m)

-- A code that is not in the store is refused.
unknown_refused :
    (env : Env) (clock : Clock) (req : TokenReq) (m : CodeStore)
    → lookup req.code m ≡ none
    → ((token_handler env clock (some req) m).0 ≡ refused 400 "invalid_grant")
      ⊎ ((token_handler env clock (some req) m).0 ≡ refused 400 "invalid_or_expired_code")
unfolding token_handler take_code redeemed
unknown_refused env clock req m h = ground arith

-- Once a token request that names a code has got past "invalid_grant", whether it was given a token
-- or not, the code is used up: every later request for it is refused, whatever other requests come
-- in between, as long as the code is not drawn again.
pub code_single_use :
    (env env' : Env) (clock clock' : Clock) (req req' : TokenReq) (m : CodeStore)
    (between : List Event)
    → (token_handler env clock (some req) m).0 ≢ refused 400 "invalid_grant"
    → NeverDrawn req.code between
    → req'.code ≡ req.code
    → let m' = after_all between (token_handler env clock (some req) m).1 in
      ((token_handler env' clock' (some req') m').0 ≡ refused 400 "invalid_grant")
      ⊎ ((token_handler env' clock' (some req') m').0 ≡ refused 400 "invalid_or_expired_code")
code_single_use env env' clock clock' req req' m between past never same =
    let m1 = (token_handler env clock (some req) m).1 in
    let gone = after_all_keeps_none req.code between m1 never (used_up env clock req m past) in
    unknown_refused env' clock' req' (after_all between m1)
      (ap (λ k. lookup k (after_all between m1)) same ∙ gone)
