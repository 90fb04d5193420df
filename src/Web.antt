-- ===== src/Web.antt =====
-- What a handler answers: `common.Response` of api/common/res.go, with the result codes of
-- codes/dict.go. A time is a number of nanoseconds since Go's zero time (year 1), so the zero
-- `time.Time` is 0; the clock is an argument of each handler, read as `time.Now()` reads it.
use tradeverse_api.Prelude.{ℕ, ◌-◌, ◌/◌, ◌*◌, ◌+◌, Bool, String, Option}
use tradeverse_api.Codes

abbrev pub Time : Type 0
Time = ℕ

-- What the n-th `time.Now()` in the text of a handler reads, counted from 0.
abbrev pub Clock : Type 0
Clock = ℕ → Time

-- `time.Second`
abbrev pub second : ℕ
second = 1000000000

-- `t.Unix()`: the seconds between the zero time and 1970 are taken off.
abbrev pub unix : Time → ℕ
unix t = t / second - 62135596800

-- `time.Unix(s, 0)`
abbrev pub from_unix : ℕ → Time
from_unix s = (s + 62135596800) * second

-- `gin.H` of the handlers modelled.
pub data Payload : Type 0 where
  nothing : Payload
  -- "operation_id", "operation_type"
  operation : ℕ → String → Payload
  -- "session_id"
  session_ref : String → Payload
  -- "joined", "join_time"
  membership : Bool → Time → Payload
  -- "operation_id", "operation_type", "lock_id", "digest", "signature", "expiry", "nonce", "amount"
  lock_ticket : ℕ → String → String → String → String → ℕ → String → ℕ → Payload
  -- the same with "status" and "tx_hash", and with the expiry as a time that may be absent
  lock_status :
      ℕ → String → String → String → String → String → String → Option Time → String → ℕ → Payload

pub record Response : Type 0 where
  pub code : ℕ
  pub msg : String
  pub timestamp : ℕ
  pub body : Payload

-- `res.Code = c; res.Msg = m; c.JSON(http.StatusOK, res)` with no data set
abbrev pub failure : Clock → ℕ → String → Response
failure clock c m = record { code = c; msg = m; timestamp = unix (clock 0); body = Payload.nothing }

-- the response of a handler that set `CODE_SUCCESS` and "success" at its start
abbrev pub success : Clock → Payload → Response
success clock p = record {
  code = Codes.success;
  msg = "success";
  timestamp = unix (clock 0);
  body = p;
}
