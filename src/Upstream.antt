-- ===== src/Upstream.antt =====
-- upstream/ and stats.rs: the choice of an upstream server, its statistics, and the fallback.
pub mod Floats
pub mod Selector
pub mod Group
pub mod Hedged
pub mod Transport
pub mod Doh3
pub mod Doh
