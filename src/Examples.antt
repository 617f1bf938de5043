-- ===== src/Examples.antt =====
-- Concrete inputs at which the theorems apply, and runs of the definitions on them.
mod Data
mod Retrying
mod Syncing
mod Forking
mod Fetching
mod Pooling
mod Writing
mod Proposing
mod Trading
mod Decoding
mod Staking
mod Reporting
mod Piping
mod Starting
