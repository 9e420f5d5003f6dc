-- ===== src/Api.antt =====
-- api, middleware and the parts of internal that they change the database through
pub mod Result
pub mod Visits
pub mod Rows
pub mod Places
pub mod Segments
pub mod Reorder
pub mod Optimise
pub mod Steps
pub mod Accounts
pub mod Users
pub mod Groups
pub mod Move
pub mod Settings
pub mod Planning
pub mod Names
pub mod Schedule
pub mod Interval
