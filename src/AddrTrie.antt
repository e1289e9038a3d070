-- ===== src/AddrTrie.antt =====
-- internal/addrtrie: address tries (BitTrie, Ip) and the domain matcher (Domain).
pub mod BitTrie
pub mod Ip
pub mod Domain
mod Tests
