-- ===== src/Login/Binding/Tests.antt =====
-- User 7 binds the wallet "key".
use tradeverse_api.Prelude.{◌≤◌, true, [], ◌∷◌, some, ◌≡◌, ◌⊎◌, refl}
use tradeverse_api.Orm.{Query, loaded}
use tradeverse_api.Model.User.{UserProvider, no_user, no_provider}
use tradeverse_api.Login.{AuthMessage, Write, Bound}
use tradeverse_api.Login.Signatures.{compute_auth_digest}
use tradeverse_api.Login.Binding.{BindDb, verify_wallet}
use tradeverse_api.Login.Binding.Laws.{verify_wallet_signed}
use tradeverse_api.Login.Tests.{clock, auth, lib, signed_request}

abbrev bind_db : BindDb
bind_db = record {
  user_main = λ i. Query.found (record no_user { id = 7 });
  message = λ i. Query.found auth;
  wallet = λ k. Query.not_found;
  wallet_of_user = λ u p. Query.not_found;
}

abbrev bound : UserProvider
bound = record no_provider {
  main_id = 7;
  provider_id = "key";
  provider_type = "wallet";
  provider_label = "bsc";
  add_time = clock 2;
}

bound_stored :
    (verify_wallet lib bind_db "" clock (some "7") (Bound.good signed_request)).writes
    ≡ Write.save_provider bound ∷ []
unfolding verify_wallet compute_auth_digest
bound_stored = refl

verify_wallet_signed_example :
    (a : AuthMessage) × (bind_db.message 3 ≡ Query.found a)
    × (clock 1 ≤ a.expire_time)
    × (compute_auth_digest lib a "sig" ≡ true)
    × ("key" ≡ a.auth_key)
    × (bound.main_id ≡ 7)
    × (let other = loaded no_provider (bind_db.wallet a.auth_key) in
        (other.id ≡ 0) ⊎ (other.main_id ≡ 7))
verify_wallet_signed_example =
    verify_wallet_signed lib bind_db "" clock "7" signed_request bound [] bound_stored
