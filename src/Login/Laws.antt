-- ===== src/Login/Laws.antt =====
-- What lets a wallet in, and what registration does to an account that exists.
use tradeverse_api.Prelude.{
  ℕ, ◌+◌, ◌*◌, ◌<◌, ◌≤◌, String, Bool, true, false, List, [], ◌∷◌, ◌++◌, length, length-append,
  take, drop, sym, ap, subst, ◌∙◌, not, if◌then◌else◌, take_front, drop_front, none, some, ◌≡◌, ◌≢◌,
  ◌⊎◌, inl, inr, eq_iff, arith, Option, ◌==◌,
}
use tradeverse_api.Web.{Clock}
use tradeverse_api.Orm.{Query, loaded, Query-cases}
use tradeverse_api.Model.User.{UserProvider, no_user, no_provider}
use tradeverse_api.Tokens.{Bytes, encrypt, expire_ts}
use tradeverse_api.Tokens.Texts.{user_token}
use tradeverse_api.Login.{AuthMessage, LoginDb, LoginEnv, Write, Body, Bound, respond, get_user_ref}
use tradeverse_api.Login.Signatures.{
  SigLib, compute_auth_digest, recovery_id, with_last, normalize_v,
}
use tradeverse_api.Login.Wallet.{VerifyAuthRequest, referral, verify_message}
use tradeverse_api.Login.Password.{RegisterRequest, register}
use tradeverse_api.Login.Entered.{IsStored, entered, wallet_session}
use tradeverse_api.Login.Sessions.{body_of}

normalize_v-recovery_id :
    (front : Bytes) (v r : ℕ)
    → length front ≡ 64
    → recovery_id v ≡ some r
    → r ≤ 1
    → normalize_v (front ++ (v ∷ [])) ≡ some (front ++ (r ∷ []))
unfolding normalize_v with_last
normalize_v-recovery_id front v r h e k =
    let sig = front ++ (v ∷ []) in
    ap (λ n. if not (n == 65) then none else with_last (take 64 sig) (drop 64 sig))
      (length-append front (v ∷ []) ∙ ap (λ n. n + 1) h)
    ∙ (ap (λ n. with_last (take n sig) (drop n sig)) (sym h)
        ∙ (ap (λ a. with_last a (drop (length front) sig)) (take_front front (v ∷ []))
            ∙ (ap (with_last front) (drop_front front (v ∷ [])) ∙ ground arith)))

-- A last byte that tells the chain of a signature (EIP-155) is brought to the recovery id it is made
-- of, 0 or 1; so is a last byte 27 or 28, and 0 and 1 stay.
pub normalize_v_lem :
    (front : Bytes) (r chain : ℕ)
    → length front ≡ 64
    → r ≤ 1
    → 35 + 2 * chain + r < 256
    → (normalize_v (front ++ (r ∷ [])) ≡ some (front ++ (r ∷ [])))
      × (normalize_v (front ++ ((27 + r) ∷ [])) ≡ some (front ++ (r ∷ [])))
      × (normalize_v (front ++ ((35 + 2 * chain + r) ∷ [])) ≡ some (front ++ (r ∷ [])))
unfolding recovery_id
normalize_v_lem front r chain h k l = (
  normalize_v-recovery_id front r r h (ground arith) k,
  normalize_v-recovery_id front (27 + r) r h (ground arith) k,
  normalize_v-recovery_id front (35 + 2 * chain + r) r h (ground arith) k,
)

module _ {PubKey : Type 0} (lib : SigLib PubKey) (db : LoginDb) (env : LoginEnv)
    (clock : Clock) where
  message_checked :
      (held : Bool) (req : VerifyAuthRequest) (user_no : String) (email : Option String)
      (token : Bytes) (auth : AuthMessage)
      → db.message req.id ≡ Query.found auth
      → body_of (verify_message db env clock lib held (Bound.good req))
        ≡ Body.session user_no email token
      → (clock 1 ≤ auth.expire_time)
        × (compute_auth_digest lib auth req.sign ≡ true)
        × (held ≡ false)
  unfolding verify_message
  message_checked held req user_no email token auth found e = ground arith

  abbrev wallet_of : AuthMessage → UserProvider
  wallet_of auth = loaded no_provider (db.wallet auth.auth_key)

  past_checks :
      (held : Bool) (req : VerifyAuthRequest) (user_no : String) (email : Option String)
      (token : Bytes) (auth : AuthMessage)
      → db.message req.id ≡ Query.found auth
      → body_of (verify_message db env clock lib held (Bound.good req))
        ≡ Body.session user_no email token
      → verify_message db env clock lib held (Bound.good req)
        ≡ entered db env clock auth.auth_key (referral db env clock req.ref) (wallet_of auth)
  unfolding verify_message
  past_checks held req user_no email token auth found e =
      elim (Query-cases (db.wallet auth.auth_key)) [
        | inl (w, known) ↦ ground arith
        | inr (inl unknown) ↦ ground arith
        | inr (inr broken) ↦ ground arith
      ]

  -- A wallet that was loaded and has an id was found.
  loaded_known :
      (auth : AuthMessage) (w : UserProvider)
      → w ≡ wallet_of auth
      → (wallet_of auth).id ≢ 0
      → db.wallet auth.auth_key ≡ Query.found w
  loaded_known auth w same real = elim (Query-cases (db.wallet auth.auth_key)) [
    | inl (v, known) ↦ ground arith
    | inr (inl unknown) ↦ ground arith
    | inr (inr broken) ↦ ground arith
  ]

  -- A wallet is let in only for a message that the database finds under the id of the request,
  -- that is not out of time, that the key of the message has signed, and that the lock map does
  -- not hold. The token is that of a wallet which the database finds under the key of the message;
  -- or it finds no wallet with an id there, and the call saves the wallet of the token, with the key
  -- of the message, for a user that it saves as well. The commit of the two is not checked.
  pub verify_message_signed :
      (held : Bool) (req : VerifyAuthRequest) (user_no : String) (email : Option String)
      (token : Bytes)
      → body_of (verify_message db env clock lib held (Bound.good req))
        ≡ Body.session user_no email token
      → (auth : AuthMessage) × (db.message req.id ≡ Query.found auth)
        × (clock 1 ≤ auth.expire_time)
        × (compute_auth_digest lib auth req.sign ≡ true)
        × (held ≡ false)
        × ((w : UserProvider) × (encrypt env.cipher
                (user_token w.main_id w.id 1 (expire_ts (clock 5)))
              ≡ some token)
            × ((db.wallet auth.auth_key ≡ Query.found w)
                ⊎ (((loaded no_provider (db.wallet auth.auth_key)).id ≡ 0)
                    × IsStored auth.auth_key w
                        (verify_message db env clock lib held (Bound.good req)).writes)))
  unfolding verify_message
  verify_message_signed held req user_no email token e = elim (Query-cases (db.message req.id)) [
    | inl (auth, found) ↦
        let (fresh, signed, free) = message_checked held req user_no email token auth found e in
        let same = past_checks held req user_no email token auth found e in
        let (w, made, given) =
          wallet_session db env clock auth.auth_key (referral db env clock req.ref) (wallet_of auth)
            user_no email token (sym (ap body_of same) ∙ e) in
        (
          auth,
          found,
          fresh,
          signed,
          free,
          (
            w,
            made,
            elim given [
              | inl (known, real) ↦ inl (loaded_known auth w known real)
              | inr (none_known, stored) ↦
                  inr (none_known, subst (λ o. IsStored auth.auth_key w o.writes) (sym same) stored)
            ],
          ),
        )
    | inr (inl none_found) ↦ ground arith
    | inr (inr broken) ↦ ground arith
  ]

  -- A known wallet that signs a message in time is let in, as often as it sends the same request
  -- before the message is out of time: nothing that is stored uses the message up. The response names
  -- neither the number nor the address of the user.
  pub known_wallet_enters :
      (req : VerifyAuthRequest) (auth : AuthMessage) (w : UserProvider) (token : Bytes)
      → db.message req.id ≡ Query.found auth
      → clock 1 ≤ auth.expire_time
      → compute_auth_digest lib auth req.sign ≡ true
      → db.wallet auth.auth_key ≡ Query.found w
      → w.id ≢ 0
      → env.has_generator ≡ true
      → encrypt env.cipher (user_token w.main_id w.id 1 (expire_ts (clock 5))) ≡ some token
      → verify_message db env clock lib false (Bound.good req)
        ≡ respond clock "success"
            (Body.session "" none token)
            (get_user_ref db env.draws (clock 4) 10 w.main_id)
  unfolding verify_message
  known_wallet_enters req auth w token found fresh signed known real gen made = ground arith

-- The password that a list of calls replaces, with the id of its account.
abbrev pub replaced : List Write → Option (ℕ × String)
replaced [] = none
replaced (Write.update_password id hash ∷ ws) = some (id, hash)
replaced (w ∷ ws) = replaced ws

-- Whatever the database answers, `register` replaces a password only for the account with the address
-- of the request, by the digest of the password of the request, and only while the account is not
-- verified; who the account belongs to is not asked.
pub register_replaces :
    (db : LoginDb) (env : LoginEnv) (clock : Clock) (held : Bool) (req : RegisterRequest) (id : ℕ)
    (hash : String)
    → replaced (register db env clock held (Bound.good req)).writes ≡ some (id, hash)
    → let user = loaded no_user (db.user_of_email req.email) in
      (id ≡ user.id) × (user.status ≡ "00") × (hash ≡ env.password_hash req.password)
unfolding register
register_replaces db env clock held req id hash e =
    let user = loaded no_user (db.user_of_email req.email) in
    ground (arith, eq_iff user.status "00")
