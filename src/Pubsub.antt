-- ===== src/Pubsub.antt =====
-- The package pubsub.
pub mod Backward
pub mod Publisher
pub mod Forks
pub mod Fetcher
pub mod Events
pub mod Forward
pub mod WorkerPool
pub mod Subscriber
pub mod Pipeline
