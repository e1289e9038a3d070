-- ===== src/Pool.antt =====
-- internal/core/ippool.go: the pools of addresses, each with its best ones and their weights.
pub mod Listing
pub mod Creation
pub mod Ranking
pub mod Choice
mod Tests
