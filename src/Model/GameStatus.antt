-- ===== src/Model/GameStatus.antt =====
-- `Status` of a game, model/game.go.
use tradeverse_api.Prelude.{String}

abbrev pub draft : String
draft = "00"

abbrev pub testing : String
testing = "05"

abbrev pub tested : String
tested = "06"

abbrev pub pending_approve : String
pending_approve = "07"

abbrev pub waiting_online : String
waiting_online = "08"

abbrev pub active : String
active = "10"

abbrev pub inactive : String
inactive = "20"
