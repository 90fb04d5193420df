-- ===== src/Model.antt =====
-- The rows of the database (model/), field by field, and their status codes. A numeral column is a
-- number; a nullable one is an `Option`.
pub mod FlowKind
pub mod FlowStatus
pub mod Direction
pub mod BalanceOp
pub mod BalanceStatus
pub mod SessionStatus
pub mod GameStatus
pub mod SeasonStatus
pub mod Flow
pub mod Game
pub mod User
