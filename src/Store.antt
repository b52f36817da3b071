-- ===== src/Store.antt =====
-- What a process keeps for others: the parts of distributed vectors and the futures
-- (ActiveBSP/src/future).
pub mod DataStore
pub mod Futures
