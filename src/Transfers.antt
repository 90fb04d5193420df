-- ===== src/Transfers.antt =====
-- Transfers of other chains, chain/okx_transfer.go: a transaction is asked for at the OKX API, by the
-- name of its chain, and brought into one form. Arguments are `strings.TrimSpace`, `ToUpper` and
-- `ToLower`, the reading and printing of floating point numbers, the HTTP client with the signature
-- and the JSON of its answers.
use tradeverse_api.Prelude.{
  String, List, [], ◌∷◌, str_eq, if◌then◌else◌, Option, none, some, Bool, true, false, ◌||◌, not,
}
use tradeverse_api.Transfers.Indices.{Table}
pub mod Indices
pub mod Tables
pub mod Names
pub mod Index
pub mod Detail
pub mod Client
pub mod Laws
pub mod Amounts
mod Tests
