-- ===== src/Scenarios.antt =====
-- A batch of two documents, followed through the pipeline and the reaper.
pub mod Data
mod Uploads
mod Processing
mod Documents
mod Deletions
mod Rules
mod Arrivals
mod Readings
mod Keys
mod Builds
