-- ===== src/Wallet/Report/Laws.antt =====
-- What `balance_topup_report` writes and queues.
use tradeverse_api.Prelude.{
  ℕ, String, false, ◌≡◌, ◌≢◌, refl, Option, none, some, List, [], ◌∷◌, arith, str_eq, EveryExit,
  answer, answer-bind, Bool-cases, ltb, not, ◌&&◌, ◌==◌, inl, inr, next,
}
use tradeverse_api.Codes
use tradeverse_api.Web.{Clock}
use tradeverse_api.Orm.{Query, loaded, Query-cases}
use tradeverse_api.Model.BalanceStatus
use tradeverse_api.Model.Flow.{AccountBalance, AccountBalanceFlow}
use tradeverse_api.Model.User.{UserMain}
use tradeverse_api.Wallet.Calls.{Write, QueuePassObject}
use tradeverse_api.Wallet.Report.{
  ReportDb, TopupReq, Outcome, balance_topup_report, check_report, referred_flow, report_flow,
}

-- The last row that was written is a flow with this key and hash, and a new one is pending.
abbrev pub LastFlow : ℕ → String → List Write → Type 0
LastFlow i h [] = ⊥
LastFlow i h (Write.create_flow f ∷ []) =
    (f.id ≡ i) × (f.tx_hash ≡ h) × (f.status ≡ BalanceStatus.pending)
LastFlow i h (Write.save_flow f ∷ []) = (f.id ≡ i) × (f.tx_hash ≡ h)
LastFlow i h (_ ∷ ws) = LastFlow i h ws

-- What was queued against what was written: nothing for nothing, or one object for the last row.
abbrev pub Linked : List QueuePassObject → List Write → Type 0
Linked [] ws = ws ≡ []
Linked (q ∷ qs) ws = LastFlow q.ref_flow_id q.tx_hash ws × (qs ≡ [])

-- The balance row that the writes save.
abbrev pub saved_balance : List Write → Option AccountBalance
saved_balance [] = none
saved_balance (Write.save_balance b ∷ ws) = some b
saved_balance (_ ∷ ws) = saved_balance ws

module _ {Decimal : Type 0} (units : Decimal → ℕ) (db : ReportDb) (clock : Clock)
    (login : Option String) (body : Option (TopupReq Decimal)) where
  IsAtomic : Outcome → Type 0
  IsAtomic o = o.response.code ≢ Codes.success → (o.writes ≡ []) × (o.queued ≡ [])

  check_report-IsAtomic : EveryExit IsAtomic (check_report units db clock login body)
  unfolding check_report IsAtomic
  check_report-IsAtomic = ground arith

  referred_flow-IsAtomic :
      (req : TopupReq Decimal) (user : UserMain)
      → EveryExit IsAtomic (referred_flow units db clock req user)
  unfolding referred_flow IsAtomic
  referred_flow-IsAtomic req user = ground arith

  report_flow-IsAtomic :
      (req : TopupReq Decimal) (user : UserMain) (lock : AccountBalanceFlow)
      → IsAtomic (answer (report_flow units db clock req user lock))
  unfolding report_flow IsAtomic
  report_flow-IsAtomic req user lock = ground arith

  -- Whatever the database answers to `balance_topup_report`, a response with an error code comes
  -- after no durable write, and nothing has been handed to the chain queue.
  pub report_atomic :
      (balance_topup_report units db clock login body).response.code ≢ Codes.success
      → ((balance_topup_report units db clock login body).writes ≡ [])
        × ((balance_topup_report units db clock login body).queued ≡ [])
  unfolding balance_topup_report IsAtomic
  report_atomic =
      answer-bind IsAtomic (check_report units db clock login body) _ check_report-IsAtomic λ ru _.
        answer-bind IsAtomic (referred_flow units db clock ru.0 ru.1) _
          (referred_flow-IsAtomic ru.0 ru.1)
          λ lock _.
            let lock' = loaded lock (db.flow_of_tx lock.id ru.1.id ru.0.tx_hash) in
            elim (Bool-cases (ltb 0 lock'.id && not (lock'.id == ru.0.ref_id))) [
              | inl e ↦ rw e (λ _. (refl, refl))
              | inr e ↦ rw e (report_flow-IsAtomic ru.0 ru.1 lock')
            ]

  IsLinked : Outcome → Type 0
  IsLinked o = Linked o.queued o.writes

  -- `b'` is a row that was found under its lock, with a new time.
  IsLocked : AccountBalance → Type 0
  IsLocked b' =
      (u : ℕ) × (b : AccountBalance) × (db.locked_balance u 0 ≡ Query.found b)
      × (b' ≡ record b { update_time = clock 6 })

  KeepsMoney : Outcome → Type 0
  KeepsMoney o = (b' : AccountBalance) → saved_balance o.writes ≡ some b' → IsLocked b'

  check_report-exits :
      EveryExit (λ o. IsLinked o × KeepsMoney o) (check_report units db clock login body)
  unfolding check_report IsLinked KeepsMoney
  check_report-exits = ground arith

  referred_flow-exits :
      (req : TopupReq Decimal) (user : UserMain)
      → EveryExit (λ o. IsLinked o × KeepsMoney o) (referred_flow units db clock req user)
  unfolding referred_flow IsLinked KeepsMoney
  referred_flow-exits req user = ground arith

  -- A lock has ended before the transaction begins.
  referred_flow_not_lock :
      (req : TopupReq Decimal) (user : UserMain) (lock : AccountBalanceFlow)
      → referred_flow units db clock req user ≡ next lock
      → str_eq req.type_name "lock" ≡ false
  unfolding referred_flow
  referred_flow_not_lock req user lock e = ground arith

  report_flow_keeps :
      (req : TopupReq Decimal) (user : UserMain) (lock : AccountBalanceFlow)
      → str_eq req.type_name "lock" ≡ false
      → let o = answer (report_flow units db clock req user lock) in IsLinked o × KeepsMoney o
  unfolding report_flow IsLinked KeepsMoney IsLocked
  report_flow_keeps req user lock e = elim (Query-cases (db.locked_balance user.id 0)) [
    | inr lost ↦ ground arith
    | inl (b, eb) ↦ (ground arith, λ b' h. (user.id, b, eb, ground arith))
  ]

  report_keeps : let o = balance_topup_report units db clock login body in IsLinked o × KeepsMoney o
  unfolding balance_topup_report IsLinked KeepsMoney
  report_keeps =
      let P : Outcome → Type 0 = λ o. IsLinked o × KeepsMoney o in
      answer-bind P (check_report units db clock login body) _ check_report-exits λ ru _.
        answer-bind P (referred_flow units db clock ru.0 ru.1) _ (referred_flow-exits ru.0 ru.1)
          λ lock e.
            let lock' = loaded lock (db.flow_of_tx lock.id ru.1.id ru.0.tx_hash) in
            elim (Bool-cases (ltb 0 lock'.id && not (lock'.id == ru.0.ref_id))) [
              | inl c ↦ rw c (refl, λ b' h. cc)
              | inr c ↦
                  rw c (report_flow_keeps ru.0 ru.1 lock' (referred_flow_not_lock ru.0 ru.1 lock e))
            ]

  -- A report hands nothing to the chain queue and writes nothing, or it hands over one object,
  -- whose
  -- flow id and hash are those of the last row that it has written; if that row is new, it is
  -- pending.
  pub report-Linked :
      Linked
        (balance_topup_report units db clock login body).queued
        (balance_topup_report units db clock login body).writes
  unfolding IsLinked
  report-Linked = report_keeps.0

  -- A report moves no money: a balance row that it saves is one that it has found under its lock,
  -- with nothing new but the time.
  pub report_keeps_money :
      (b' : AccountBalance)
      → saved_balance (balance_topup_report units db clock login body).writes ≡ some b'
      → (u : ℕ) × (b : AccountBalance) × (db.locked_balance u 0 ≡ Query.found b)
        × (b' ≡ record b { update_time = clock 6 })
  unfolding KeepsMoney IsLocked
  report_keeps_money = report_keeps.1
