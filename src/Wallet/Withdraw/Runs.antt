-- ===== src/Wallet/Withdraw/Runs.antt =====
-- A run of `BalanceWithdrawRequest`, api/http/controller/auth/user.go, for a user without an open
-- lock and with a database that answers every call.
use tradeverse_api.Prelude.{
  ℕ, ◌+◌, ◌-◌, ◌≤◌, ◌<◌, String, len, true, false, ◌≡◌, ◌≢◌, some, List, [], ◌∷◌, arith, refl,
}
use tradeverse_api.Prelude.Words.{u64_mod, add64, sub64}
use tradeverse_api.Web.{Clock}
use tradeverse_api.Orm.{Query, Created}
use tradeverse_api.Model.BalanceOp
use tradeverse_api.Model.BalanceStatus
use tradeverse_api.Model.Flow.{AccountBalance, AccountBalanceFlow}
use tradeverse_api.Model.User.{UserMain, UserProvider}
use tradeverse_api.Wallet.Calls.{Write}
use tradeverse_api.Wallet.Nonce.{big_int_to_hex32}
use tradeverse_api.Wallet.Withdraw.{
  WithdrawDb, WithdrawEnv, WithdrawReq, balance_withdraw_request, lock_flow, withdrawing, expiry,
}

-- The user is found and has no open lock, the balance row `b` has the amount available, the wallet
-- and the signing key are there, the lock is drawn and signed, and every row can be stored, the new
-- flow with the primary key `key`.
pub record CanLock (db : WithdrawDb) (env : WithdrawEnv) (clock : Clock) (main_id : String)
    (chain_id amount : ℕ) (user : UserMain) (wallet : UserProvider) (b : AccountBalance)
    (lock_id : String) (digest sig : List ℕ) (key : ℕ) : Type 0 where
  pub user_found : db.user_main main_id ≡ Query.found user
  pub none_open :
      db.open_lock user.id BalanceOp.freeze
        (BalanceStatus.pending ∷ BalanceStatus.pending_with_draw ∷ [])
      ≡ Query.not_found
  pub balance_found : db.locked_balance user.id 0 ≡ Query.found b
  pub enough : amount ≤ b.available
  pub fits : b.available + b.withdrawal < u64_mod
  pub wallet_found : db.provider user.id "wallet" ≡ Query.found wallet
  pub wallet_given : len wallet.provider_id ≢ 0
  pub contract_given : len env.contract_addr ≢ 0
  pub key_given : len env.priv_key_hex ≢ 0
  pub drawn : env.new_lock_id ≡ some lock_id
  pub signs :
      (time : ℕ)
      → env.sign chain_id env.contract_addr env.priv_key_hex wallet.provider_id lock_id amount time
          env.nonce
        ≡ some (digest, sig)
  pub balance_saved : (c : AccountBalance) → db.save_balance c ≡ true
  pub flow_created : (g : AccountBalanceFlow) → db.create_flow g ≡ Created.created key
  pub committed : db.commit ≡ true

module _ {Decimal : Type 0} (units : Decimal → ℕ) (db : WithdrawDb) (env : WithdrawEnv)
    (clock : Clock) (main_id : String) (req : WithdrawReq Decimal) (user : UserMain)
    (wallet : UserProvider) (b : AccountBalance) (lock_id : String) (digest sig : List ℕ) (key : ℕ)
    (can : CanLock db env clock main_id req.chain_id
      (units req.amount)
      user
      wallet
      b
      lock_id
      digest
      sig
      key) where
  pub withdraw_writes :
      let amount = units req.amount in
      (balance_withdraw_request units db env clock false (some main_id) (some req)).writes
      ≡ Write.save_balance (withdrawing db env clock amount b)
        ∷ Write.create_flow
            (record (lock_flow db env clock user amount lock_id wallet.provider_id sig) {
              id = key;
            })
        ∷ []
  unfolding balance_withdraw_request
  withdraw_writes =
      let amount = units req.amount in
      ground (
        arith,
        can.balance_saved (withdrawing db env clock amount b),
        can.signs (expiry db env clock),
        can.flow_created (lock_flow db env clock user amount lock_id wallet.provider_id sig),
      )

  -- If the user has no open lock and the amount available, the lock can be drawn and signed and
  -- every row can be stored: `balance_withdraw_request` makes two rows durable, the balance with
  -- the
  -- amount moved from available to withdrawal, and the lock with the drawn id, the signature, the
  -- user's wallet and the nonce in hexadecimal.
  pub withdraw_opens :
      (b' : AccountBalance) × (f : AccountBalanceFlow) × ((balance_withdraw_request units db env
          clock false
          (some main_id)
          (some req)).writes
        ≡ Write.save_balance b' ∷ Write.create_flow f ∷ [])
      × (b'.available ≡ b.available - units req.amount)
      × (b'.withdrawal ≡ b.withdrawal + units req.amount)
      × (f.id ≡ key)
      × (f.lock_id ≡ lock_id)
      × (f.lock_sig ≡ env.encode sig)
      × (f.lock_addr ≡ wallet.provider_id)
      × (f.lock_nonce ≡ big_int_to_hex32 env.encode env.nonce)
  unfolding lock_flow withdrawing add64 sub64
  withdraw_opens =
      let amount = units req.amount in
      let f = lock_flow db env clock user amount lock_id wallet.provider_id sig in
      (
        withdrawing db env clock amount b,
        record f { id = key },
        withdraw_writes,
        ground arith,
        ground arith,
        refl,
        refl,
        refl,
        refl,
        refl,
      )
