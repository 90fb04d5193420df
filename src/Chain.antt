-- ===== src/Chain.antt =====
-- Transactions on the chain: how they are parsed (Parse), what the worker of the chain queue does
-- with them (Worker), what the daily check queues again (Recheck), and the way of a reported
-- transaction through the queue to its settlement (Pipeline).
pub mod Client
pub mod Parse
pub mod Worker
pub mod Recheck
pub mod Pipeline
