-- ===== src/Examples.antt =====
-- Tests of the models and concrete instances of the theorems. They model no further code.
pub mod Submission
pub mod Facts
pub mod Stream
pub mod Scores
pub mod Decisions
pub mod Payments
pub mod Logins
pub mod Roots
pub mod Sessions
pub mod Policies
pub mod Graphs
