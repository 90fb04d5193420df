-- ===== src/Oapi/GameStart/Laws.antt =====
-- What `game_start` does to the ledger.
use tradeverse_api.Prelude.{ℕ, String, ◌≡◌, ◌≢◌, Option, [], arith}
use tradeverse_api.Prelude.Words.{add64, sub64}
use tradeverse_api.Codes
use tradeverse_api.Web.{Clock}
use tradeverse_api.Orm.{loaded}
use tradeverse_api.Model.User.{no_user}
use tradeverse_api.Oapi.Calls.{GameDb}
use tradeverse_api.Oapi.GameStart.{GameStartReq, game_start}
use tradeverse_api.Oapi.Ledger.{
  Ledger, Reads, IsBacked, apply_all, frozen_of, funds_of, pending, spent,
}

module _ {Decimal : Type 0} (db : GameDb Decimal) (clock : Clock) where
  -- Whatever the database answers to `game_start`, a response with an error code comes after no
  -- durable write.
  pub game_start_atomic :
      (client_id user_id : String) (body : Option GameStartReq)
      → (game_start db clock client_id user_id body).response.code ≢ Codes.success
      → (game_start db clock client_id user_id body).writes ≡ []
  unfolding game_start
  game_start_atomic c u b h = ground arith

  module _ (l : Ledger) (r : Reads db l) (h : IsBacked l) where
    game_start_user :
        (client_id user_id : String) (body : Option GameStartReq) (u : ℕ)
        → let l' = apply_all (game_start db clock client_id user_id body).writes l in
          (frozen_of (l'.balance u) ≡ pending u l'.flows)
          × (funds_of (l'.balance u) ≡ funds_of (l.balance u))
          × (spent u l'.flows ≡ spent u l.flows)
    unfolding game_start add64 sub64
    game_start_user c i b u =
        let m = (loaded no_user (db.user_main i)).id in
        ground (arith, r.balances m, h.backed u, h.fits u, h.backed m, h.fits m)

    -- If the reads return the rows of a ledger in which every user's frozen money is the sum of the
    -- user's pending freezes and every user's funds fit in a uint64, then so it is after
    -- `game_start`, and no user's funds, available and frozen together, and no user's spends have
    -- changed.
    pub game_start-IsBacked :
        (client_id user_id : String) (body : Option GameStartReq)
        → let l' = apply_all (game_start db clock client_id user_id body).writes l in
          IsBacked l'
          × ((u : ℕ)
              → (funds_of (l'.balance u) ≡ funds_of (l.balance u))
                × (spent u l'.flows ≡ spent u l.flows))
    game_start-IsBacked c i b = (
      record {
        backed = λ u. (game_start_user c i b u).0;
        fits = λ u. omega (arith, game_start_user c i b u, h.fits u);
      },
      λ u. ((game_start_user c i b u).1, (game_start_user c i b u).2),
    )
