-- ===== src/Wallet.antt =====
-- Money that moves between the platform and the chain: reports of top-ups and withdrawals, the
-- withdrawal lock, and the settlement of a parsed transaction.
pub mod Calls
pub mod Settle
pub mod Report
pub mod Withdraw
pub mod Nonce
mod Tests
