-- ===== src/Login/Wallet.antt =====
-- `GetAuthMsg` and `VerifyMessage`, api/http/controller/preauth/index.go: a wallet signs a message
-- that the server has made, and is logged in; a new wallet needs a referral code.
use tradeverse_api.Prelude.{
  ℕ, ◌+◌, ◌*◌, String, len, Bool, true, false, not, ◌&&◌, List, [], ◌∷◌, ◌++◌, ltb, ◌==◌,
  if◌then◌else◌, none, Exit, next, exit, ◌>>=◌, ◌>>◌, return_if, answer,
}
use tradeverse_api.Random.{generate_nonce}
use tradeverse_api.Codes
use tradeverse_api.Web.{Clock, second}
use tradeverse_api.Orm.{Query, Created, loaded}
use tradeverse_api.Model.User.{UserMain, UserProvider, UserRef, no_user, no_provider, no_ref}
use tradeverse_api.Tokens.{expire_ts}
use tradeverse_api.Tokens.Texts.{user_token}
use tradeverse_api.Login.{
  AuthMessage, LoginDb, LoginEnv, Write, Body, Outcome, Bound, no_message, refuse, respond,
  bound_request, encrypted, get_user_ref,
}
use tradeverse_api.Login.Signatures.{SigLib, format, compute_auth_digest}

-- `AuthRequestKey` is its key alone.
pub record VerifyAuthRequest : Type 0 where
  pub id : ℕ
  pub sign : String
  pub ref : String

-- `DEFAULT_MSG`
abbrev pub default_msg : String
default_msg = "Welcome to N on BSC \n Please sign this message to continue"

-- `UserLoginTypeWallet`
abbrev pub login_type_wallet : ℕ
login_type_wallet = 1

module _ (db : LoginDb) (env : LoginEnv) (clock : Clock) where
  -- A message that is not found is made; one that the query fails for is an error.
  found_message : Query AuthMessage → Exit Outcome AuthMessage
  found_message (Query.found m) = next m
  found_message Query.not_found = next no_message
  found_message Query.failed = exit (refuse clock Codes.unknown env.db_error)

  unfoldable pub new_message : String → AuthMessage
  unfolding generate_nonce
  new_message auth_key = record {
    id = 0;
    auth_key = auth_key;
    auth_msg = default_msg;
    nonce = generate_nonce env.draws 0 10;
    create_time = clock 2;
    expire_time = clock 3 + 300 * second;
    type_code = 10;
    wallet = "";
  }

  -- The error of `Save` is only logged: the message goes out with the id 0.
  stored_message : AuthMessage → AuthMessage × List Write
  stored_message m = elim (db.save_message m) [
    | Created.created i ↦ (record m { id = i }, Write.save_message (record m { id = i }) ∷ [])
    | Created.duplicate ↦ (m, [])
    | Created.refused ↦ (m, [])
  ]

  message_or_new : String → AuthMessage → AuthMessage × List Write
  unfolding new_message stored_message
  message_or_new auth_key m = if m.id == 0 then stored_message (new_message auth_key) else (m, [])

  unfoldable pub get_auth_msg : Bound String → Outcome
  unfolding bound_request found_message message_or_new format
  get_auth_msg body = answer do
    auth_key ← bound_request clock body
    found ← found_message (db.message_of_key auth_key (clock 1))
    let stored = message_or_new auth_key found
    next (respond clock "success" (Body.auth_text stored.0.id (format stored.0)) stored.1)

  known_message : Query AuthMessage → Exit Outcome AuthMessage
  known_message (Query.found m) = next m
  known_message Query.not_found = exit (refuse clock Codes.obj_not_found "record not found")
  known_message Query.failed = exit (refuse clock Codes.unknown env.db_error)

  found_wallet : Query UserProvider → Exit Outcome UserProvider
  found_wallet (Query.found w) = next w
  found_wallet Query.not_found = next no_provider
  found_wallet Query.failed = exit (refuse clock Codes.unknown "system error")

  unfoldable pub referral : String → UserRef
  referral code = if len code == 0 then no_ref else loaded no_ref (db.ref_of_code code)

  abbrev pub new_user : UserRef → UserMain
  new_user ref = record {
    id = 0;
    user_no = env.user_no;
    email = none;
    password = "";
    add_time = clock 2;
    status = "00";
    ref_id = ref.id;
  }

  abbrev pub new_wallet : String → UserMain → UserProvider
  new_wallet auth_key user = record {
    id = 0;
    main_id = user.id;
    provider_type = "wallet";
    provider_id = auth_key;
    add_time = clock 3;
    provider_label = "bsc";
  }

  -- The handler returns without a response, and the transaction is rolled back.
  abbrev silent : {A : Type 0} → Exit Outcome A
  silent = exit (record { reply = none; writes = [] })

  stored_user : UserMain → Created → Exit Outcome UserMain
  stored_user user (Created.created i) = next (record user { id = i })
  stored_user user Created.duplicate = silent
  stored_user user Created.refused = silent

  stored_wallet : UserProvider → Created → Exit Outcome UserProvider
  stored_wallet wallet (Created.created i) = next (record wallet { id = i })
  stored_wallet wallet Created.duplicate = silent
  stored_wallet wallet Created.refused = silent

  unfoldable pub registered : String → UserRef → Exit Outcome (UserMain × UserProvider × List Write)
  unfolding stored_user stored_wallet
  registered auth_key ref = do
    user ← stored_user (new_user ref) (db.save_user (new_user ref))
    wallet ← stored_wallet (new_wallet auth_key user) (db.save_provider (new_wallet auth_key user))
    next (user, wallet, Write.save_user user ∷ Write.save_provider wallet ∷ [])

  -- The user is loaded for a new wallet only.
  unfoldable pub wallet_or_new :
      String → UserRef → UserProvider → Exit Outcome (UserMain × UserProvider × List Write)
  unfolding registered
  wallet_or_new auth_key ref wallet = elim (wallet.id == 0) [
    | true ↦ registered auth_key ref
    | false ↦ next (no_user, wallet, [])
  ]

  unfoldable pub logged_in : UserMain → UserProvider → List Write → Exit Outcome Outcome
  unfolding encrypted get_user_ref
  logged_in user wallet ws = do
    let ws' = ws ++ get_user_ref db env.draws (clock 4) 10 wallet.main_id
    token ←
        encrypted env clock ws'
          (user_token wallet.main_id wallet.id login_type_wallet (expire_ts (clock 5)))
    next (respond clock "success" (Body.session user.user_no user.email token) ws')

  module _ {PubKey : Type 0} (lib : SigLib PubKey) where
    -- The message is one that the wallet has signed in time.
    checked_message : Bound VerifyAuthRequest → Exit Outcome (VerifyAuthRequest × AuthMessage)
    unfolding bound_request known_message
    checked_message body = do
      req ← bound_request clock body
      auth ← known_message (db.message req.id)
      return_if (ltb auth.expire_time (clock 1))
          (refuse clock Codes.req_expired "please get a new message")
      return_if (not (compute_auth_digest lib auth req.sign))
          (refuse clock Codes.sig_common "invalid sign")
      next (req, auth)

    -- `held`: `loginInLock` has the id of the message.
    unfoldable pub verify_message : Bool → Bound VerifyAuthRequest → Outcome
    unfolding checked_message found_wallet referral wallet_or_new logged_in
    verify_message held body = answer do
      (req, auth) ← checked_message body
      return_if held (refuse clock Codes.processing "operating, please do not repeat the operation")
      wallet ← found_wallet (db.wallet auth.auth_key)
      return_if (not env.has_generator) (refuse clock Codes.unknown "system generator error")
      let ref = referral req.ref
      return_if (ref.id == 0 && wallet.id == 0)
          (refuse clock Codes.processing "referral code not found")
      (user, stored, ws) ← wallet_or_new auth.auth_key ref wallet
      logged_in user stored ws
