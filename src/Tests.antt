-- ===== src/Tests.antt =====
-- Runs of the model at concrete inputs: for each theorem with hypotheses one input that meets them.
mod Fixtures
mod Cases
mod Flow
mod Again
mod Upstream
mod Net
mod Store
mod Schema
mod Doh
mod Assembly
mod Network
mod Services
