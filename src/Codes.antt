-- ===== src/Codes.antt =====
-- The result codes of codes/dict.go that the handlers modelled answer with.
use tradeverse_api.Prelude.{ℕ}

abbrev pub success : ℕ
success = 0

abbrev pub req_format : ℕ
req_format = 2

abbrev pub req_expired : ℕ
req_expired = 6

abbrev pub app_id_invalid : ℕ
app_id_invalid = 3

abbrev pub sig_method_unsupported : ℕ
sig_method_unsupported = 4

abbrev pub token_failed : ℕ
token_failed = 5

abbrev pub exist_obj : ℕ
exist_obj = 7

abbrev pub sig_common : ℕ
sig_common = 10

abbrev pub bad_params : ℕ
bad_params = 8

abbrev pub obj_not_found : ℕ
obj_not_found = 9

abbrev pub security : ℕ
security = 15

abbrev pub repeat : ℕ
repeat = 17

abbrev pub processing : ℕ
processing = 800

abbrev pub unknown : ℕ
unknown = 900
