-- ===== src/Oapi.antt =====
-- The open API that a game calls with a player's token (api/oauth/jwt_middleware.go). A handler is
-- a function of its request, of the user and client of its token, of the clock and of the answers
-- of the database. It returns the response together with the writes that became durable: those of
-- a transaction only if its `Commit` succeeded, so a rolled-back write does not appear.
pub mod Calls
pub mod SessionInit
pub mod GameStart
pub mod GameEnd
pub mod Ledger
pub mod Trace
mod Tests
