-- ===== src/Login/Binding.antt =====
-- `VerifyWallet`, api/http/controller/auth/user.go: a user who is logged in binds the wallet that has
-- signed a message. A user has one wallet row, which a new wallet takes over.
use tradeverse_api.Prelude.{
  ℕ, String, Bool, not, ◌&&◌, List, [], ◌∷◌, ltb, ◌==◌, Option, none, some, Exit, next, exit, ◌>>=◌,
  ◌>>◌, return_if, answer,
}
use tradeverse_api.Codes
use tradeverse_api.Web.{Clock}
use tradeverse_api.Orm.{Query, loaded}
use tradeverse_api.Model.User.{UserMain, UserProvider, no_user, no_provider}
use tradeverse_api.Login.{AuthMessage, Write, Body, Outcome, Bound, refuse, respond, bound_request}
use tradeverse_api.Login.Signatures.{SigLib, compute_auth_digest}
use tradeverse_api.Login.Wallet.{VerifyAuthRequest}
pub mod Laws
mod Tests

pub record BindDb : Type 0 where
  -- id = ?
  pub user_main : String → Query UserMain
  -- id = ?
  pub message : ℕ → Query AuthMessage
  -- provider_id = ? and provider_type = "wallet"
  pub wallet : String → Query UserProvider
  -- main_id = ? and provider_type = "wallet"; a row that was loaded before is a condition as well
  pub wallet_of_user : String → UserProvider → Query UserProvider

module _ {PubKey : Type 0} (lib : SigLib PubKey) (db : BindDb) (db_error : String)
    (clock : Clock) where
  checked_login : Option String → Exit Outcome String
  checked_login none = exit (refuse clock Codes.security "please login")
  checked_login (some main_id) = next main_id

  known_user : String → Exit Outcome UserMain
  known_user main_id = do
    let user = loaded no_user (db.user_main main_id)
    return_if (user.id == 0) (refuse clock Codes.obj_not_found "user not found")
    next user

  found_auth : Query AuthMessage → Exit Outcome AuthMessage
  found_auth (Query.found m) = next m
  found_auth Query.not_found = exit (refuse clock Codes.obj_not_found "record not found")
  found_auth Query.failed = exit (refuse clock Codes.unknown db_error)

  -- The row of the user's wallet with the new wallet in it. The error of `Save` is not looked at.
  bound_wallet : UserMain → AuthMessage → UserProvider → Outcome
  bound_wallet user auth row =
      let wallet : UserProvider = record row {
        main_id = user.id;
        provider_id = auth.auth_key;
        provider_type = "wallet";
        provider_label = "bsc";
        add_time = clock 2;
      } in
      respond clock "" Body.nothing (Write.save_provider wallet ∷ [])

  unfoldable pub verify_wallet : Option String → Bound VerifyAuthRequest → Outcome
  unfolding bound_request checked_login known_user found_auth bound_wallet
  verify_wallet login body = answer do
    req ← bound_request clock body
    main_id ← checked_login login
    user ← known_user main_id
    auth ← found_auth (db.message req.id)
    return_if (ltb auth.expire_time (clock 1))
        (refuse clock Codes.req_expired "please get a new message")
    let bound = loaded no_provider (db.wallet auth.auth_key)
    return_if (not (bound.id == 0) && not (bound.main_id == user.id))
        (refuse clock Codes.req_format "wallet already binded")
    return_if (not (compute_auth_digest lib auth req.sign))
        (refuse clock Codes.sig_common "invalid sign")
    next (bound_wallet user auth (loaded bound (db.wallet_of_user main_id bound)))
