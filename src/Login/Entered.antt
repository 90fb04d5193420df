-- ===== src/Login/Entered.antt =====
-- The session of `VerifyMessage`, api/http/controller/preauth/index.go, once its checks are passed:
-- for a wallet that is known, or for a new one that the call saves.
use tradeverse_api.Prelude.{
  String, List, [], ◌∷◌, ◌++◌, sym, ap, subst, ◌∙◌, answer, next, exit, ◌>>=◌, Exit-cases, some,
  ◌≡◌, ◌≢◌, ◌⊎◌, inl, inr, arith, Option, Option-cases,
}
use tradeverse_api.Web.{Clock}
use tradeverse_api.Model.User.{UserMain, UserProvider, UserRef}
use tradeverse_api.Tokens.{Bytes, encrypt, expire_ts}
use tradeverse_api.Tokens.Texts.{user_token}
use tradeverse_api.Login.{LoginDb, LoginEnv, Write, Body, Outcome, get_user_ref}
use tradeverse_api.Login.Wallet.{logged_in, wallet_or_new}
use tradeverse_api.Login.Sessions.{body_of, stored_user, stored_provider}

-- Of the rows that are saved, the first user is the owner of the first wallet, which is `w` and has
-- the key.
pub IsStored : String → UserProvider → List Write → Type 0
IsStored auth_key w ws =
    (u : UserMain) × (stored_user ws ≡ some u)
    × (stored_provider ws ≡ some w)
    × (w.main_id ≡ u.id)
    × (w.provider_id ≡ auth_key)

module _ (db : LoginDb) (env : LoginEnv) (clock : Clock) where
  session_token :
      (user : UserMain) (w : UserProvider) (ws : List Write) (user_no : String)
      (email : Option String) (token : Bytes)
      → body_of (answer (logged_in db env clock user w ws)) ≡ Body.session user_no email token
      → encrypt env.cipher (user_token w.main_id w.id 1 (expire_ts (clock 5))) ≡ some token
  unfolding logged_in
  session_token user w ws user_no email token e =
      elim (Option-cases (encrypt env.cipher (user_token w.main_id w.id 1 (expire_ts (clock 5))))) [
        | inl failed ↦ ground arith
        | inr (t, made) ↦ ground arith
      ]

  logged_in_writes :
      (user : UserMain) (w : UserProvider) (ws : List Write)
      → (answer (logged_in db env clock user w ws)).writes
        ≡ ws ++ get_user_ref db env.draws (clock 4) 10 w.main_id
  unfolding logged_in
  logged_in_writes user w ws =
      elim (Option-cases (encrypt env.cipher (user_token w.main_id w.id 1 (expire_ts (clock 5))))) [
        | inl failed ↦ ground arith
        | inr (t, made) ↦ ground arith
      ]

  silent_exit :
      (auth_key : String) (ref : UserRef) (wallet : UserProvider) (r : Outcome)
      → wallet_or_new db env clock auth_key ref wallet ≡ exit r
      → body_of r ≡ Body.nothing
  unfolding wallet_or_new
  silent_exit auth_key ref wallet r e = ground arith

  wallet_given :
      (auth_key : String) (ref : UserRef) (wallet : UserProvider) (user : UserMain)
      (w : UserProvider) (ws : List Write)
      → wallet_or_new db env clock auth_key ref wallet ≡ next (user, w, ws)
      → ((w ≡ wallet) × (wallet.id ≢ 0))
        ⊎ ((wallet.id ≡ 0)
            × (w.provider_id ≡ auth_key)
            × (w.main_id ≡ user.id)
            × (ws ≡ Write.save_user user ∷ Write.save_provider w ∷ []))
  unfolding wallet_or_new
  wallet_given auth_key ref wallet user w ws e = ground arith

  -- What `VerifyMessage` does once its checks are passed.
  abbrev pub entered : String → UserRef → UserProvider → Outcome
  entered auth_key ref wallet = answer do
    (user, stored, ws) ← wallet_or_new db env clock auth_key ref wallet
    logged_in db env clock user stored ws

  wallet_or_new-IsStored :
      (auth_key : String) (user : UserMain) (w : UserProvider) (ws more : List Write)
      → w.provider_id ≡ auth_key
      → w.main_id ≡ user.id
      → ws ≡ Write.save_user user ∷ Write.save_provider w ∷ []
      → IsStored auth_key w (ws ++ more)
  unfolding IsStored
  wallet_or_new-IsStored auth_key user w ws more key own e =
      (user, ap (λ l. stored_user (l ++ more)) e, ap (λ l. stored_provider (l ++ more)) e, own, key)

  -- The wallet of a session, known or new.
  pub wallet_session :
      (auth_key : String) (ref : UserRef) (wallet : UserProvider) (user_no : String)
      (email : Option String) (token : Bytes)
      → body_of (entered auth_key ref wallet) ≡ Body.session user_no email token
      → (w : UserProvider) × (encrypt env.cipher (user_token w.main_id w.id 1 (expire_ts (clock 5)))
          ≡ some token)
        × (((w ≡ wallet) × (wallet.id ≢ 0))
            ⊎ ((wallet.id ≡ 0) × IsStored auth_key w (entered auth_key ref wallet).writes))
  wallet_session auth_key ref wallet user_no email token e =
      elim (Exit-cases (wallet_or_new db env clock auth_key ref wallet)) [
        | inl (r, out) ↦ ground (arith, silent_exit auth_key ref wallet r out)
        | inr ((user, w, ws), went) ↦
            let same = ap (λ m. answer (m >>= λ x. logged_in db env clock x.0 x.1 x.2)) went in
            let more = get_user_ref db env.draws (clock 4) 10 w.main_id in
            let writes = ap (λ o. o.writes) same ∙ logged_in_writes user w ws in
            (
              w,
              session_token user w ws user_no email token (sym (ap body_of same) ∙ e),
              elim (wallet_given auth_key ref wallet user w ws went) [
                | inl known ↦ inl known
                | inr (none_known, key, own, ews) ↦ inr (
                  none_known,
                  subst (IsStored auth_key w) (sym writes)
                      (wallet_or_new-IsStored auth_key user w ws more key own ews),
                )
              ],
            )
      ]
