-- ===== src/Tests.antt =====
-- Runs on small inputs, and the theorems at concrete inputs.
mod Matrices
mod HeldKarp
mod Search
mod Waypoints
mod Places
mod Segments
mod Tables
mod Groups
mod Steps
mod Move
mod Optimise
mod Users
mod Planning
mod Names
mod Schedule
mod Settings
mod Auth
mod Logins
