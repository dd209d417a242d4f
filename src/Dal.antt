-- ===== src/Dal.antt =====
-- app/db/dal.py: the data-access layer. A read is a function of the database; a write returns the new
-- database, with the statement's answer where the caller asks for one. `now` is the clock's reading.
pub mod Settings
pub mod Sessions
pub mod Stages
pub mod Outputs
pub mod Library
pub mod Masters
pub mod Contract
