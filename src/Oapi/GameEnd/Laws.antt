-- ===== src/Oapi/GameEnd/Laws.antt =====
-- What `game_end` does to the ledger.
use tradeverse_api.Prelude.{
  ℕ, ◌+◌, ◌≤◌, String, ◌≡◌, ◌≢◌, true, inl, inr, Option, some, [], ◌∷◌, arith, answer, answer-bind,
  next,
}
use tradeverse_api.Prelude.Words.{sub64}
use tradeverse_api.Codes
use tradeverse_api.Web.{Clock}
use tradeverse_api.Orm.{Query-cases, Created-cases}
use tradeverse_api.Model.FlowKind
use tradeverse_api.Model.FlowStatus
use tradeverse_api.Model.User.{UserMain}
use tradeverse_api.Model.Flow.{AccountFlow, AccountBalance}
use tradeverse_api.Oapi.Calls.{GameDb, Outcome}
use tradeverse_api.Model.Game.{GameSession}
use tradeverse_api.Oapi.GameEnd.{
  GameEndReq, Finish, game_end, settle_freeze, spend_flow, bound_request, check_session,
  check_freeze, spent_before,
}
use tradeverse_api.Oapi.Ledger.{
  Ledger, Reads, IsBacked, put, replace, apply_all, find, is_pending, frozen_of, funds_of, pending,
  spent, weight, cost,
}
use tradeverse_api.Oapi.Ledger.Sums.{total-replace}

module _ {Decimal : Type 0} (db : GameDb Decimal) (clock : Clock) where
  -- Whatever the database answers to `game_end`, a response with an error code comes after no
  -- durable write.
  pub game_end_atomic :
      (client_id user_id : String) (body : Option (GameEndReq Decimal))
      → (game_end db clock client_id user_id body).response.code ≢ Codes.success
      → (game_end db clock client_id user_id body).writes ≡ []
  unfolding game_end
  game_end_atomic c u b h = ground arith

  module _ (l : Ledger) (r : Reads db l) (h : IsBacked l) where
    -- The transaction's writes, on the rows that it has locked.
    settled_user :
        (m : ℕ) (b : AccountBalance) (f g s : AccountFlow) (u : ℕ)
        → l.balance m ≡ some b
        → b.main_id ≡ m
        → find f.id l.flows ≡ some f
        → is_pending m f ≡ true
        → f.amount ≤ b.frozen
        → g ≡ record f { status = FlowStatus.done; update_time = clock 3 }
        → s.main_id ≡ m
        → s.biz_type ≡ FlowKind.spend
        → s.amount ≡ f.amount
        → s.id ≢ f.id
        → let b' = record b { frozen = sub64 b.frozen f.amount } in
          let l' = record (put b' l) { flows = replace g (s ∷ l.flows) } in
          (frozen_of (l'.balance u) ≡ pending u l'.flows)
          × (funds_of (l'.balance u) + spent u l'.flows ≡ funds_of (l.balance u) + spent u l.flows)
          × (spent u l.flows ≤ spent u l'.flows)
    unfolding sub64
    settled_user m b f g s u eb em ef ep le eg sm sb sa ne = ground (
      arith,
      h.backed u,
      h.fits u,
      h.backed m,
      h.fits m,
      total-replace (weight u) g f l.flows,
      total-replace (cost u) g f l.flows,
    )

    -- The conclusion for one user.
    Settles : ℕ → Outcome Decimal → Type 0
    Settles u o =
        let l' = apply_all o.writes l in
        (frozen_of (l'.balance u) ≡ pending u l'.flows)
        × (funds_of (l'.balance u) + spent u l'.flows ≡ funds_of (l.balance u) + spent u l.flows)
        × (spent u l.flows ≤ spent u l'.flows)

    settle_freeze_user :
        (client_id : String) (e : Finish Decimal) (u : ℕ)
        → find e.req.game_start_id l.flows ≡ some e.freeze_flow
        → e.freeze_flow.main_id ≡ e.user_main.id
        → Settles u (answer (settle_freeze db clock client_id e))
    unfolding settle_freeze Settles
    settle_freeze_user c e u ef em =
        let i = e.req.game_start_id in
        let s = e.game_session.session_id in
        let q = db.locked_flow i s FlowKind.freeze FlowStatus.pending in
        elim (Query-cases q) [
          | inr eq ↦ ground (arith, h.backed u)
          | inl (f, eq) ↦ elim (Query-cases (db.locked_balance e.user_main.id 0)) [
            | inr eb ↦ ground (arith, h.backed u)
            | inl (b, eb) ↦ elim (Created-cases (db.create_flow (spend_flow db clock c e f))) [
              | inr ei ↦ ground (arith, h.backed u)
              | inl (n, ei) ↦ ground (
                arith,
                h.backed u,
                r.balances e.user_main.id,
                r.locked i FlowKind.freeze FlowStatus.pending s,
                r.matching i FlowKind.freeze FlowStatus.pending s,
                r.fresh (spend_flow db clock c e f),
                settled_user e.user_main.id b f
                    (record f { status = FlowStatus.done; update_time = clock 3 })
                    (record (spend_flow db clock c e f) { id = n }) u,
              )
            ]
          ]
        ]

    -- The freeze that passed the checks is a row of the ledger and belongs to the user.
    checked_freeze :
        (req : GameEndReq Decimal) (us : UserMain × GameSession Decimal) (e : Finish Decimal)
        → check_freeze db clock req us ≡ next e
        → (find e.req.game_start_id l.flows ≡ some e.freeze_flow)
          × (e.freeze_flow.main_id ≡ e.user_main.id)
    unfolding check_freeze
    checked_freeze req us e ee = ground (arith, r.flow req.game_start_id)

    game_end_user :
        (client_id user_id : String) (body : Option (GameEndReq Decimal)) (u : ℕ)
        → Settles u (game_end db clock client_id user_id body)
    unfolding game_end Settles
    game_end_user c i body u =
        answer-bind (Settles u) (bound_request db clock body) _ (ground (arith, h.backed u))
          λ req _.
            answer-bind (Settles u) (check_session db clock c i req) _ (ground (arith, h.backed u))
              λ us _.
                answer-bind (Settles u) (check_freeze db clock req us) _
                  (ground (arith, h.backed u))
                  λ e ee.
                    answer-bind (Settles u)
                      (spent_before db clock
                        (db.flow_of_ref e.freeze_flow.id FlowKind.spend e.game_session.session_id))
                      _ (ground (arith, h.backed u))
                      λ _ _.
                        let (known, owned) = checked_freeze req us e ee in
                        settle_freeze_user c e u known owned

    -- If the reads return the rows of a ledger in which every user's frozen money is the sum of the
    -- user's pending freezes and every user's funds fit in a uint64, then so it is after
    -- `game_end`, and for every user the funds, available and frozen together, and the sum of the
    -- user's spends add up to the same as before.
    pub game_end-IsBacked :
        (client_id user_id : String) (body : Option (GameEndReq Decimal))
        → let l' = apply_all (game_end db clock client_id user_id body).writes l in
          IsBacked l'
          × ((u : ℕ)
              → funds_of (l'.balance u) + spent u l'.flows
                ≡ funds_of (l.balance u) + spent u l.flows)
    unfolding Settles
    game_end-IsBacked c i body = (
      record {
        backed = λ u. (game_end_user c i body u).0;
        fits = λ u. omega (arith, game_end_user c i body u, h.fits u);
      },
      λ u. (game_end_user c i body u).1,
    )
