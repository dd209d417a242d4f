-- ===== src/Tests.antt =====
-- Runs of the models on concrete data, and each theorem at a concrete input.
pub mod Data
pub mod Dal
pub mod Pipeline
pub mod Stages
pub mod Contract
pub mod Accept
pub mod Cascade
pub mod Api
pub mod Startup
