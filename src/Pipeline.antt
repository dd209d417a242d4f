-- ===== src/Pipeline.antt =====
-- app/pipeline: the stages of a run, the outcome rule, scoping and the reaper.
pub mod Grounding
pub mod Validation
pub mod Run
pub mod Keeps
pub mod Locks
pub mod Stages
pub mod Scenarios
pub mod Session
pub mod Frame
pub mod Yields
pub mod Results
pub mod Outcome
pub mod Scoping
pub mod Promotion
pub mod Accept
pub mod Cascade
pub mod Reaper
