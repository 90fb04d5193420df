-- ===== src/Model/SeasonStatus.antt =====
-- `Status` of a season, model/game.go.
use tradeverse_api.Prelude.{String}

abbrev pub draft : String
draft = "00"

abbrev pub active : String
active = "10"

abbrev pub ended : String
ended = "20"

abbrev pub settled : String
settled = "30"
