-- ===== src/Wallet/Withdraw/Laws.antt =====
-- What `balance_withdraw_request` writes.
use tradeverse_api.Prelude.{ℕ, ◌+◌, ◌<◌, String, Bool, ◌≡◌, ◌≢◌, Option, some, List, [], ◌∷◌, arith}
use tradeverse_api.Prelude.Words.{u64_mod, add64, sub64}
use tradeverse_api.Codes
use tradeverse_api.Web.{Clock, Response}
use tradeverse_api.Orm.{Query}
use tradeverse_api.Model.BalanceOp
use tradeverse_api.Model.BalanceStatus
use tradeverse_api.Model.Flow.{AccountBalance, AccountBalanceFlow}
use tradeverse_api.Model.User.{UserMain}
use tradeverse_api.Wallet.Calls.{Write}
use tradeverse_api.Wallet.Withdraw.{WithdrawDb, WithdrawEnv, WithdrawReq, balance_withdraw_request}

-- The writes are none, or they save the balance row `b` with the amount moved from available to
-- withdrawal and create a pending freeze of the user over the amount.
abbrev pub Locks : ℕ → UserMain → AccountBalance → List Write → Type 0
Locks amount user b [] = Unit
Locks amount user b (Write.save_balance b' ∷ Write.create_flow f ∷ []) =
    (b'.available + amount ≡ b.available)
    × (b'.withdrawal ≡ b.withdrawal + amount)
    × (b'.frozen ≡ b.frozen)
    × (f.main_id ≡ user.id)
    × (f.op ≡ BalanceOp.freeze)
    × (f.status ≡ BalanceStatus.pending)
    × (f.real_amount ≡ amount)
Locks amount user b _ = ⊥

module _ {Decimal : Type 0} (units : Decimal → ℕ) (db : WithdrawDb) (env : WithdrawEnv)
    (clock : Clock) (held : Bool) where
  -- Whatever `balance_withdraw_request` is answered, a response with an error code comes after no
  -- durable write.
  pub withdraw_atomic :
      (login : Option String) (body : Option (WithdrawReq Decimal)) (r : Response)
      → (balance_withdraw_request units db env clock held login body).response ≡ some r
      → r.code ≢ Codes.success
      → (balance_withdraw_request units db env clock held login body).writes ≡ []
  unfolding balance_withdraw_request
  withdraw_atomic login body r e h = ground arith

  module _ (main_id : String) (req : WithdrawReq Decimal) (user : UserMain)
      (found : db.user_main main_id ≡ Query.found user) where
    -- If the user and the user's balance row are found, and available money and money on withdrawal
    -- fit in a uint64 together: a request writes nothing, or it moves exactly the requested amount
    -- from available to withdrawal, leaves the frozen money alone, and creates a pending freeze of
    -- the user over that amount.
    pub withdraw-Locks :
        (b : AccountBalance)
        → db.locked_balance user.id 0 ≡ Query.found b
        → b.available + b.withdrawal < u64_mod
        → Locks
            (units req.amount)
            user
            b
            (balance_withdraw_request units db env clock held (some main_id) (some req)).writes
    unfolding balance_withdraw_request add64 sub64
    withdraw-Locks b eb fits = ground arith

    -- A user with a freeze flow that is pending or waits to be withdrawn gets no second one: the
    -- request writes nothing.
    pub withdraw_single :
        (f : AccountBalanceFlow)
        → db.open_lock user.id BalanceOp.freeze
            (BalanceStatus.pending ∷ BalanceStatus.pending_with_draw ∷ [])
          ≡ Query.found f
        → f.id ≢ 0
        → (balance_withdraw_request units db env clock held (some main_id) (some req)).writes ≡ []
    unfolding balance_withdraw_request
    withdraw_single f e h = ground arith
