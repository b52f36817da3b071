-- ===== src/Server.antt =====
-- ActiveBSP/src/management/ActorServer.cpp, the management thread of a process.
pub mod State
pub mod Results
pub mod Fetch
pub mod Futures
pub mod Prefetch
pub mod Route
pub mod Wire
pub mod Safety
pub mod Reader
