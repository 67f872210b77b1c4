-- ===== src/Dashboard.antt =====
-- The dashboard under dashboard/: the query events, and the observation points of the cache.
pub mod Recorder
pub mod Services
pub mod Sampler
pub mod Store
pub mod Metrics
pub mod Http
