-- ===== src/Login/Binding/Laws.antt =====
-- Whose wallet is bound.
use tradeverse_api.Prelude.{◌≤◌, String, true, List, ◌∷◌, some, ◌≡◌, ◌⊎◌, inl, inr, arith}
use tradeverse_api.Web.{Clock}
use tradeverse_api.Orm.{Query, loaded, Query-cases}
use tradeverse_api.Model.User.{UserProvider, no_user, no_provider}
use tradeverse_api.Login.{AuthMessage, Write, Bound}
use tradeverse_api.Login.Signatures.{SigLib, compute_auth_digest}
use tradeverse_api.Login.Wallet.{VerifyAuthRequest}
use tradeverse_api.Login.Binding.{BindDb, verify_wallet}

-- Whatever the database answers, `verify_wallet` stores a wallet only for the user who is logged in,
-- with the key of a message that was found, is not out of time and that the key has signed, and only
-- if the wallet was not found under another user.
pub verify_wallet_signed :
    {PubKey : Type 0} (lib : SigLib PubKey) (db : BindDb) (db_error : String) (clock : Clock)
    (main_id : String) (req : VerifyAuthRequest) (p : UserProvider) (ws : List Write)
    → (verify_wallet lib db db_error clock (some main_id) (Bound.good req)).writes
      ≡ Write.save_provider p ∷ ws
    → (auth : AuthMessage) × (db.message req.id ≡ Query.found auth)
      × (clock 1 ≤ auth.expire_time)
      × (compute_auth_digest lib auth req.sign ≡ true)
      × (p.provider_id ≡ auth.auth_key)
      × (p.main_id ≡ (loaded no_user (db.user_main main_id)).id)
      × (let other = loaded no_provider (db.wallet auth.auth_key) in
          (other.id ≡ 0) ⊎ (other.main_id ≡ p.main_id))
unfolding verify_wallet
verify_wallet_signed lib db db_error clock main_id req p ws e =
    elim (Query-cases (db.message req.id)) [
      | inl (auth, found) ↦
          (auth, found, ground arith, ground arith, ground arith, ground arith, ground arith)
      | inr (inl unknown) ↦ ground arith
      | inr (inr broken) ↦ ground arith
    ]
